-- ===== src/Nipopow/Chains.antt =====
-- What a valid proof holds, and when one proof beats another (proof.rs).
use ergo_rust_node.Prelude.{
  ℕ, ◌+◌, ◌^◌, ◌<◌, ◌≡◌, refl, true, false, List, [], ◌∷◌, map, none, some, ltb, leb, inl, inr,
  length, contains, get_last?, arith, Bool-cases, Option-cases, All,
}
use ergo_rust_node.Nipopow.Algos.{best_arg, best_arg_loop, usize_of_i32, lift_i64, superblock_count}
use ergo_rust_node.Nipopow.Proof.{
  Header, PoPowHeader, NipopowProof, connects_to, headers_chain, tip_height, increasing,
  has_valid_heights, prefix_connects, tail_connects, has_valid_connections, validate, is_valid,
  common_height, diverging, is_better_than,
}

-- Each header is higher than all before it.
abbrev pub Rising : List Header → Type 0
Rising [] = Unit
Rising (h ∷ hs) = All (λ g. h.height < g.height) hs × Rising hs

-- Each connects to the one before; each has the one before as its parent.
abbrev pub Linked : List PoPowHeader → Type 0
Linked [] = Unit
Linked (a ∷ []) = Unit
Linked (a ∷ b ∷ hs) = (connects_to b a.header.id ≡ true) × Linked (b ∷ hs)

abbrev pub Parents : ℕ → List Header → Type 0
Parents id [] = Unit
Parents id (h ∷ hs) = (h.parent_id ≡ id) × Parents h.id hs

All-above :
    (a b : ℕ) (hs : List Header) → a < b → All (λ g. b < g.height) hs → All (λ g. a < g.height) hs
All-above a b [] h k = tt
All-above a b (g ∷ gs) h k = (omega (arith, k.0), All-above a b gs h k.1)

increasing-Rising : (hs : List Header) → increasing hs ≡ true → Rising hs
unfolding increasing
increasing-Rising [] h = tt
increasing-Rising (a ∷ []) h = (tt, tt)
increasing-Rising (a ∷ b ∷ hs) h =
    let rest = increasing-Rising (b ∷ hs) (ground arith) in
    let step : a.height < b.height = ground arith in
    ((step, All-above a.height b.height hs step rest.0), rest)

prefix_connects-Linked : (hs : List PoPowHeader) → prefix_connects hs ≡ true → Linked hs
unfolding prefix_connects
prefix_connects-Linked [] h = tt
prefix_connects-Linked (a ∷ []) h = tt
prefix_connects-Linked (a ∷ b ∷ hs) h =
    (ground arith, prefix_connects-Linked (b ∷ hs) (ground arith))

tail_connects-Parents : (id : ℕ) (hs : List Header) → tail_connects id hs ≡ true → Parents id hs
unfolding tail_connects
tail_connects-Parents id [] h = tt
tail_connects-Parents id (x ∷ xs) h = (ground arith, tail_connects-Parents x.id xs (ground arith))

-- What validation establishes.
pub record IsChain (p : NipopowProof) : Type 0 where
  pub rising : Rising (headers_chain p)
  pub linked : Linked p.prefix
  pub joined :
      (h : PoPowHeader) → get_last? p.prefix ≡ some h → connects_to p.suffix_head h.header.id ≡ true
  pub parents : Parents p.suffix_head.header.id p.suffix_tail
  pub started : 0 < length p.prefix
  pub suffix : length p.suffix_tail + 1 ≡ p.k

validate-none :
    (p : NipopowProof)
    → validate p ≡ none
    → (0 < length p.prefix)
      × (length p.suffix_tail + 1 ≡ p.k)
      × (has_valid_heights p ≡ true)
      × (has_valid_connections p ≡ true)
unfolding validate
validate-none p h = (ground arith, ground arith, ground arith, ground arith)

connections :
    (p : NipopowProof)
    → has_valid_connections p ≡ true
    → (prefix_connects p.prefix ≡ true)
      × ((h : PoPowHeader)
          → get_last? p.prefix ≡ some h
          → connects_to p.suffix_head h.header.id ≡ true)
      × (tail_connects p.suffix_head.header.id p.suffix_tail ≡ true)
unfolding has_valid_connections
connections p h = (ground arith, λ g e. ground arith, ground arith)

-- A proof that validates is a chain: heights rise strictly through the prefix and the suffix, every
-- header of the prefix and the head of the suffix connect to the one before by parent or interlink,
-- the tail of the suffix is a chain of parents, and the suffix has k headers.
pub validate-IsChain : (p : NipopowProof) → validate p ≡ none → IsChain p
unfolding has_valid_heights
validate-IsChain p h =
    let (started, suffix, heights, connected) = validate-none p h in
    let (linked, joined, parents) = connections p connected in
    record {
      rising = increasing-Rising (headers_chain p) heights;
      linked = prefix_connects-Linked p.prefix linked;
      joined = joined;
      parents = tail_connects-Parents p.suffix_head.header.id p.suffix_tail parents;
      started = started;
      suffix = suffix;
    }

common_height-first :
    (ids : List ℕ) (h : Header) (hs : List Header)
    → contains ids h.id ≡ true
    → common_height ids (h ∷ hs) ≡ some h.height
unfolding common_height
common_height-first ids h hs e = rw (e) refl

ltb_irrefl : (a : ℕ) → ltb a a ≡ false
ltb_irrefl a = ground arith

-- No proof is better than itself.
pub is_better_than_irrefl : (p : NipopowProof) → is_better_than p p ≡ false
unfolding is_better_than
is_better_than_irrefl p = elim (Bool-cases (is_valid p)) [
  | inr v ↦ ground arith
  | inl v ↦
      elim (Option-cases (common_height (map (λ h. h.id) (headers_chain p)) (headers_chain p))) [
        | inl e ↦ rw (v, e, is_better_than) (ltb_irrefl (tip_height p))
        | inr (b, e) ↦
            rw (v, e, is_better_than)
              (ltb_irrefl (lift_i64 (best_arg (diverging b (headers_chain p)) p.m)))
      ]
]

zeros : (b : ℕ) (hs : List Header) → superblock_count 1 (diverging b hs) ≡ 0
unfolding diverging
zeros b [] = refl
zeros b (h ∷ hs) = ground (arith, zeros b hs)

plain_score :
    (ls : List ℕ) (m : ℕ)
    → superblock_count 1 ls ≡ 0
    → 0 < usize_of_i32 m
    → best_arg ls m ≡ length ls
unfolding best_arg best_arg_loop
plain_score [] m z h = refl
plain_score (l ∷ ls) m z h =
    let few : leb (usize_of_i32 m) (superblock_count 1 (l ∷ ls)) ≡ false = ground arith in
    rw (few, best_arg_loop) refl

lift_i64-lt : (a b : ℕ) → a < 2 ^ 63 → b < 2 ^ 63 → ltb (lift_i64 a) (lift_i64 b) ≡ ltb a b
lift_i64-lt a b h k = ground arith

-- Between two valid proofs that share a header, with m at least 1 and fewer than 2 ^ 63 headers, the one
-- with more headers above the first shared one is better; superblocks do not count.
pub is_better_than_counts :
    (p other : NipopowProof) (b : ℕ)
    → is_valid p ≡ true
    → is_valid other ≡ true
    → common_height (map (λ h. h.id) (headers_chain p)) (headers_chain other) ≡ some b
    → 0 < usize_of_i32 p.m
    → 0 < usize_of_i32 other.m
    → length (diverging b (headers_chain p)) < 2 ^ 63
    → length (diverging b (headers_chain other)) < 2 ^ 63
    → is_better_than p other
      ≡ ltb (length (diverging b (headers_chain other))) (length (diverging b (headers_chain p)))
unfolding is_better_than
is_better_than_counts p other b v w e h k f g =
    let mine = plain_score (diverging b (headers_chain p)) p.m (zeros b (headers_chain p)) h in
    let theirs =
      plain_score (diverging b (headers_chain other)) other.m (zeros b (headers_chain other)) k in
    rw (v, w, e, mine, theirs, is_better_than)
      (lift_i64-lt (length (diverging b (headers_chain other)))
        (length (diverging b (headers_chain p))) g f)
