-- ===== src/Memory/Chunks.antt =====
-- About the chunks of dynamic memory in Firmware/main/zops.c as one array of bytes.
use zmachine.Base.{
  ℕ, ◌/◌, ◌%◌, ◌<◌, ◌≡◌, inl, inr, none, some, List, arith, ◌==◌, if◌then◌else◌, Option-cases,
  Bool-cases, get_elem?, set, length, get_elem?-set, get_elem?-lt,
}
use zmachine.Memory.{get_dynamic, put_dynamic}

-- A write into a chunk that is there changes that byte and no other.
get_dynamic-set :
    (chunks : List (List ℕ)) (chunk : List ℕ) (a v j : ℕ)
    → get_elem? chunks (a / 1024) ≡ some chunk
    → a % 1024 < length chunk
    → get_dynamic (set chunks (a / 1024) (set chunk (a % 1024) v)) j
      ≡ (if a == j then some v else get_dynamic chunks j)
unfolding get_dynamic
get_dynamic-set chunks chunk a v j here inside = ground (
  arith,
  get_elem?-set chunks (a / 1024) (j / 1024) (set chunk (a % 1024) v),
  get_elem?-set chunk (a % 1024) (j % 1024) v,
  get_elem?-lt chunks (a / 1024) here,
)

-- A write succeeds where a read does.
pub put_dynamic-some :
    (chunks : List (List ℕ)) (a v : ℕ) {b : ℕ}
    → get_dynamic chunks a ≡ some b
    → (chunks' : List (List ℕ)) × (put_dynamic chunks a v ≡ some chunks')
unfolding get_dynamic put_dynamic
put_dynamic-some chunks a v h = elim (Option-cases (get_elem? chunks (a / 1024))) [
  | inl e ↦ absurd (ground arith)
  | inr (chunk, e) ↦ (set chunks (a / 1024) (set chunk (a % 1024) v), ground arith)
]

-- Where it succeeds, the written byte is the new one and all others are the old ones.
pub get_dynamic-put_dynamic :
    (chunks chunks' : List (List ℕ)) (a v j : ℕ)
    → put_dynamic chunks a v ≡ some chunks'
    → get_dynamic chunks' j ≡ (if a == j then some v else get_dynamic chunks j)
unfolding put_dynamic
get_dynamic-put_dynamic chunks chunks' a v j h = elim (Option-cases (get_elem? chunks (a / 1024))) [
  | inl e ↦ absurd (ground arith)
  | inr (chunk, e) ↦ elim (Option-cases (get_elem? chunk (a % 1024))) [
    | inl e' ↦ absurd (ground arith)
    | inr (b, e') ↦
        ground (arith, get_dynamic-set chunks chunk a v j e (get_elem?-lt chunk (a % 1024) e'))
  ]
]

pub put_dynamic-none :
    (chunks : List (List ℕ)) (a v : ℕ) → get_dynamic chunks a ≡ none → put_dynamic chunks a v ≡ none
unfolding get_dynamic put_dynamic
put_dynamic-none chunks a v h = elim (Option-cases (get_elem? chunks (a / 1024))) [
  | inl e ↦ ground arith
  | inr (chunk, e) ↦ ground arith
]

-- A write takes no byte away.
pub put_dynamic-keeps :
    (chunks chunks' : List (List ℕ)) (a v j : ℕ) {b : ℕ}
    → put_dynamic chunks a v ≡ some chunks'
    → get_dynamic chunks j ≡ some b
    → (c : ℕ) × (get_dynamic chunks' j ≡ some c)
put_dynamic-keeps chunks chunks' a v j {b} put h =
    let e = get_dynamic-put_dynamic chunks chunks' a v j put in
    elim (Bool-cases (a == j)) [ inl p ↦ (v, ground arith) | inr p ↦ (b, ground arith) ]
