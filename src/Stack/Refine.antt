-- ===== src/Stack/Refine.antt =====
-- About the stack of Firmware/main/zops.c against the list of the values in use, the oldest first.
use zmachine.Base.{
  length-take, ℕ, suc, ◌+◌, ◌-◌, ◌≤◌, ◌<◌, ◌≡◌, refl, sym, ap, inl, inr, Option, none, some, List,
  [], ◌∷◌, ◌++◌, arith, ltb, if◌then◌else◌, length, get_elem?, set, take, length-set, take-set_end,
  take-suc, take-set_above, get_elem?-some, get_elem?-set_self, ℕ-cases,
}
use zmachine.Stack.{Stack, push_value, pop_value, peek_value, set_top}

-- The list operations that a stack promises: a bounded push, and taking the last value off.
unfoldable pub push_list {ℓ} : {A : Type ℓ} → ℕ → List A → A → Option (List A)
push_list depth xs v = if ltb (length xs) depth then some (xs ++ v ∷ []) else none

abbrev pub keep_first {ℓ} : {A : Type ℓ} → A → Option (A × List A) → Option (A × List A)
keep_first x none = some (x, [])
keep_first x (some (v, xs)) = some (v, x ∷ xs)

unfoldable pub pop_list {ℓ} : {A : Type ℓ} → List A → Option (A × List A)
pop_list [] = none
pop_list (x ∷ xs) = keep_first x (pop_list xs)

pop_list-append {ℓ} : {A : Type ℓ} (xs : List A) (v : A) → pop_list (xs ++ v ∷ []) ≡ some (v, xs)
unfolding pop_list
pop_list-append [] v = refl
pop_list-append (x ∷ xs) v = ap (keep_first x) (pop_list-append xs v)

module _ {A : Type 0} where
  -- The array has the slots that `stackInit` was told of, and no more are in use.
  pub record IsValid (s : Stack A) : Type 0 where
    pub room : length s.base ≡ s.depth
    pub used : s.current ≤ s.depth

  abbrev pub values : Stack A → List A
  values s = take s.current s.base

  abbrev pub values_after : Option (Stack A) → Option (List A)
  values_after none = none
  values_after (some t) = some (values t)

  abbrev pub value_and_rest : Option (A × Stack A) → Option (A × List A)
  value_and_rest none = none
  value_and_rest (some (v, t)) = some (v, values t)

  -- On a valid stack, `*stackPush(s) = v` is a push on the list of the values in use, which fails
  -- exactly when `depth` values are in use.
  pub push_value_refines :
      (s : Stack A) (v : A)
      → IsValid s
      → values_after (push_value s v) ≡ push_list s.depth (values s) v
  unfolding push_value push_list
  push_value_refines s v ok =
      ground (arith, length-take s.current s.base, take-set_end s.base s.current v)

  pub push_value-at :
      (s : Stack A) (v : A)
      → s.current < s.depth
      → push_value s v ≡ some (record s { base = set s.base s.current v; current = s.current + 1 })
  unfolding push_value
  push_value-at s v h = ground arith

  -- A push with room for it.
  pub push_value-some :
      (s : Stack A) (v : A)
      → IsValid s
      → s.current < s.depth
      → (t : Stack A) × (push_value s v ≡ some t)
  unfolding push_value
  push_value-some s v ok h =
      (record s { base = set s.base s.current v; current = s.current + 1 }, ground arith)

  pub push_value-IsValid :
      (s : Stack A) (v : A) {t : Stack A} → IsValid s → push_value s v ≡ some t → IsValid t
  unfolding push_value
  push_value-IsValid s v ok h = ground (arith, length-set s.base s.current v)

  -- A pop reads the slot below `current`.
  pub pop_value-at :
      (s : Stack A) (n : ℕ) (v : A)
      → s.current ≡ suc n
      → get_elem? s.base n ≡ some v
      → pop_value s ≡ some (v, record s { current = n })
  unfolding pop_value
  pop_value-at s n v e here =
      let e' : s.current - 1 ≡ n = omega arith in
      let there : get_elem? s.base (s.current - 1) ≡ some v = rw e' here in ground arith

  pub peek_value-at :
      (s : Stack A) (n : ℕ) (v : A)
      → s.current ≡ suc n
      → get_elem? s.base n ≡ some v
      → peek_value s ≡ some v
  unfolding peek_value
  peek_value-at s n v e here =
      let e' : s.current - 1 ≡ n = omega arith in
      let there : get_elem? s.base (s.current - 1) ≡ some v = rw e' here in ground arith

  pub set_top-at :
      (s : Stack A) (n : ℕ) (v : A)
      → s.current ≡ suc n
      → set_top s v ≡ some (record s { base = set s.base n v })
  unfolding set_top
  set_top-at s n v e =
      let e' : s.current - 1 ≡ n = omega arith in
      let there : set s.base (s.current - 1) v ≡ set s.base n v = rw e' in ground arith

  -- What is popped off a stack with `n + 1` values in use.
  pop_value-some :
      (s : Stack A) (n : ℕ)
      → IsValid s
      → s.current ≡ suc n
      → (v : A) × (pop_value s ≡ some (v, record s { current = n }))
        × (values s ≡ take n s.base ++ v ∷ [])
  pop_value-some s n ok e =
      let (v, here) = get_elem?-some s.base n (omega arith) in
      (v, pop_value-at s n v e here, rw e (take-suc s.base n v here))

  -- On a valid stack, `*stackPop(s)` is a pop of the list of the values in use: the value added
  -- last and the others, or a failure when there is none.
  pub pop_value_refines :
      (s : Stack A) → IsValid s → value_and_rest (pop_value s) ≡ pop_list (values s)
  unfolding pop_value pop_list
  pop_value_refines s ok = elim (ℕ-cases s.current) [
    | inl e ↦ rw e (ground arith)
    | inr (n, e) ↦
        let (v, got, all) = pop_value-some s n ok e in
        rw (got, all) (sym (pop_list-append (take n s.base) v))
  ]

  pub pop_value-IsValid :
      (s : Stack A) {v : A} {t : Stack A} → IsValid s → pop_value s ≡ some (v, t) → IsValid t
  unfolding pop_value
  pop_value-IsValid s ok h = elim (ℕ-cases s.current) [
    | inl e ↦ absurd (ground arith)
    | inr (n, e) ↦ let (v, got, all) = pop_value-some s n ok e in ground arith
  ]

  -- On a valid stack where a push succeeded: a pop gives the value that was pushed, and the values
  -- left are those of before.
  pub pop_value-push_value :
      (s : Stack A) (v : A) {t : Stack A}
      → IsValid s
      → push_value s v ≡ some t
      → (u : Stack A) × (pop_value t ≡ some (v, u)) × (values u ≡ values s)
  unfolding push_value
  pop_value-push_value s v {t} ok h =
      let here = get_elem?-set_self s.base s.current v in
      (
        record t { current = s.current },
        pop_value-at t s.current v (ground arith) (ground (arith, here)),
        ground (arith, take-set_above s.base s.current s.current v),
      )
