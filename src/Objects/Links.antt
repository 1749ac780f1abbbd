-- ===== src/Objects/Links.antt =====
-- About the getters and setters of an object's links in Firmware/main/zops.c.
use zmachine.Base.{
  ℕ, ◌+◌, ◌*◌, ◌/◌, ◌%◌, ◌<◌, ◌≡◌, ◌≢◌, ◌⊎◌, refl, ap, true, false, some, arith, leb, List,
  Bool-cases, Option-cases, inl, inr, Option, none, ◌==◌, if◌then◌else◌,
}
use zmachine.Base.Int.{ℤ, pos, quot}
use zmachine.Machine.{Machine, ZObject}
use zmachine.Effects.{M, Done, Run, ok, stopped}
use zmachine.Memory.{make_u16, read_u16, read_byte}
use zmachine.Memory.Flat.{
  byte_at, with_chunks, IsMapped, set_memory_lem, read_byte_lem, read_u16_lem, read_memory-byte_at,
}
use zmachine.Memory.Words.{set_two_lem}
use zmachine.Objects.{
  zobject_get_parent, zobject_get_sibling, zobject_get_child, zobject_set_parent,
  zobject_set_sibling, zobject_set_child, get_link, set_link, read_byte_at, read_u16_at,
  set_memory_at,
}

-- What a command that reads gives, the state aside.
abbrev pub result : {A : Type 0} → Run A → Option A
result (ok a s) = some a
result (stopped r s) = none

-- The links of an object, and where the object table keeps them: a byte up to version 3, and two
-- bytes from 4 on.
pub data Link : Type 0 where
  parent : Link
  sibling : Link
  child : Link

abbrev pub small_of : Link → ℕ
small_of parent = 4
small_of sibling = 5
small_of child = 6

abbrev pub large_of : Link → ℕ
large_of parent = 6
large_of sibling = 8
large_of child = 10

abbrev pub zobject_get : Link → ZObject → M ℕ
zobject_get parent = zobject_get_parent
zobject_get sibling = zobject_get_sibling
zobject_get child = zobject_get_child

abbrev pub zobject_set : Link → ZObject → ℤ → Done
zobject_set parent = zobject_set_parent
zobject_set sibling = zobject_set_sibling
zobject_set child = zobject_set_child

-- The entry at `a` has the link in dynamic memory, and `id` fits it.
abbrev pub HasLink : Machine → ℕ → Link → ℕ → Type 0
HasLink s a link id =
    (leb s.version 3 ≡ true → (a + small_of link < s.end_of_dynamic) × (id < 256))
    × (leb s.version 3 ≡ false → (a + large_of link + 1 < s.end_of_dynamic) × (id < 65536))

-- The memory with the link of the entry at `a` set to `id`, and nothing else changed
abbrev pub with_link : Machine → ℕ → Link → ℕ → ℕ → Option ℕ
with_link s a link id j =
    if leb s.version 3
    then (if a + small_of link == j then some id else byte_at s j)
    else if a + large_of link == j
    then some (id / 256)
    else if a + large_of link + 1 == j
    then some (id % 256)
    else byte_at s j

module _ (s t : Machine) where
  -- Bytes that are the same in two states are read alike.
  read_byte-same :
      (j : ℕ) → byte_at t j ≡ byte_at s j → result (read_byte j t) ≡ result (read_byte j s)
  unfolding read_byte
  read_byte-same j e = elim (Option-cases (byte_at s j)) [
    | inl none_there ↦ ground (arith, read_memory-byte_at s j, read_memory-byte_at t j)
    | inr (b, there) ↦ ground (arith, read_memory-byte_at s j, read_memory-byte_at t j)
  ]

  read_u16-same :
      (j : ℕ)
      → byte_at t j ≡ byte_at s j
      → byte_at t (j + 1) ≡ byte_at s (j + 1)
      → result (read_u16 j t) ≡ result (read_u16 j s)
  unfolding read_u16 read_byte
  read_u16-same j e e' = ground (
    arith,
    read_memory-byte_at s j,
    read_memory-byte_at t j,
    read_memory-byte_at s (j + 1),
    read_memory-byte_at t (j + 1),
  )

module _ (s : Machine) (m : IsMapped s) (obj : ZObject) (a small large id : ℕ) where
  -- The same for a link at any offsets, and another that does not overlap it
  get_link-set_link :
      (other_small other_large : ℕ)
      → obj.addr ≡ pos a
      → (leb s.version 3 ≡ true → (a + small < s.end_of_dynamic) × (id < 256))
      → (leb s.version 3 ≡ false → (a + large + 1 < s.end_of_dynamic) × (id < 65536))
      → small ≢ other_small
      → (large + 1 < other_large) ⊎ (other_large + 1 < large)
      → (chunks : List (List ℕ)) × (set_link small large obj (pos id) s
          ≡ ok tt (with_chunks s chunks))
        × (get_link small large obj (with_chunks s chunks) ≡ ok id (with_chunks s chunks))
        × (result (get_link other_small other_large obj (with_chunks s chunks))
            ≡ result (get_link other_small other_large obj s))
        × ((j : ℕ)
            → byte_at (with_chunks s chunks) j ≡ (
                if leb s.version 3
                then (if a + small == j then some id else byte_at s j)
                else if a + large == j
                then some (id / 256)
                else if a + large + 1 == j
                then some (id % 256)
                else byte_at s j))
        × IsMapped (with_chunks s chunks)
  unfolding set_link get_link set_memory_at read_byte_at read_u16_at make_u16 quot
  get_link-set_link small' large' here h_old h_new ne apart = elim (Bool-cases (leb s.version 3)) [
    | inl old ↦
        let (room, fits) = h_old old in
        let (chunks, done, bytes, m') = set_memory_lem s m (a + small) (id % 256) room in
        let t = with_chunks s chunks in
        let b : byte_at t (a + small) ≡ some (id % 256 % 256) = ground (arith, bytes (a + small)) in
        let b' : byte_at t (a + small') ≡ byte_at s (a + small') =
          ground (arith, bytes (a + small')) in
        let e : id % 256 % 256 % 256 ≡ id = omega arith in
        (
          chunks,
          rw (old, here) done,
          rw (old, here, read_byte_lem t (a + small) b, e) refl,
          rw (old, here) (read_byte-same s t (a + small') b'),
          (λ j. rw old (ground (arith, bytes j, fits))),
          m',
        )
    | inr new ↦
        let (room, fits) = h_new new in
        let (chunks, done, bytes, m') =
          set_two_lem s m (a + large) (id / 256 % 256) (id % 256) room in
        let t = with_chunks s chunks in
        let b : byte_at t (a + large) ≡ some (id / 256 % 256 % 256) =
          ground (arith, bytes (a + large)) in
        let c : byte_at t (a + large + 1) ≡ some (id % 256 % 256) =
          ground (arith, bytes (a + large + 1)) in
        let b' : byte_at t (a + large') ≡ byte_at s (a + large') =
          ground (arith, bytes (a + large')) in
        let c' : byte_at t (a + large' + 1) ≡ byte_at s (a + large' + 1) =
          ground (arith, bytes (a + large' + 1)) in
        let e : id / 256 % 256 % 256 % 256 * 256 + id % 256 % 256 % 256 ≡ id = omega arith in
        let e' : a + (large + 1) ≡ a + large + 1 = omega arith in
        (
          chunks,
          rw (new, here, e') done,
          rw (new, here, read_u16_lem t (a + large) b c) (ap (λ v. ok v t) e),
          rw (new, here) (read_u16-same s t (a + large') b' c'),
          (λ j. rw new (ground (arith, bytes j, fits))),
          m',
        )
  ]

different : (link other : Link) → link ≢ other → small_of link ≢ small_of other
different parent parent ne e = ne refl
different sibling sibling ne e = ne refl
different child child ne e = ne refl
different parent sibling ne e = absurd (omega (arith, e))
different parent child ne e = absurd (omega (arith, e))
different sibling parent ne e = absurd (omega (arith, e))
different sibling child ne e = absurd (omega (arith, e))
different child parent ne e = absurd (omega (arith, e))
different child sibling ne e = absurd (omega (arith, e))

apart :
    (link other : Link)
    → link ≢ other
    → (large_of link + 1 < large_of other) ⊎ (large_of other + 1 < large_of link)
apart parent parent ne = absurd (ne refl)
apart sibling sibling ne = absurd (ne refl)
apart child child ne = absurd (ne refl)
apart parent sibling ne = inl (omega arith)
apart parent child ne = inl (omega arith)
apart sibling parent ne = inr (omega arith)
apart sibling child ne = inl (omega arith)
apart child parent ne = inr (omega arith)
apart child sibling ne = inr (omega arith)

getter : (link : Link) → zobject_get link ≡ get_link (small_of link) (large_of link)
unfolding zobject_get_parent zobject_get_sibling zobject_get_child
getter parent = refl
getter sibling = refl
getter child = refl

setter : (link : Link) → zobject_set link ≡ set_link (small_of link) (large_of link)
unfolding zobject_set_parent zobject_set_sibling zobject_set_child
setter parent = refl
setter sibling = refl
setter child = refl

-- For an object whose entry starts at `a`, one of its three links in mapped dynamic memory, an
-- `id` that fits this link (a byte up to version 3, two bytes from 4 on), and another of the
-- three: `zobjectSetParent`, `zobjectSetSibling` or `zobjectSetChild` succeeds, the getter of the
-- same link then gives `id`, the getter of the other link gives what it gave before, and of all
-- bytes of the game's memory only the byte at offset 4, 5 or 6 up to version 3, the two at 6, 8 or
-- 10 from 4 on, are changed: they hold `id`. The memory stays mapped.
pub zobject_get-zobject_set :
    (s : Machine) (obj : ZObject) (a id : ℕ) (link other : Link)
    → IsMapped s
    → obj.addr ≡ pos a
    → HasLink s a link id
    → link ≢ other
    → (chunks : List (List ℕ)) × (zobject_set link obj (pos id) s ≡ ok tt (with_chunks s chunks))
      × (zobject_get link obj (with_chunks s chunks) ≡ ok id (with_chunks s chunks))
      × (result (zobject_get other obj (with_chunks s chunks)) ≡ result (zobject_get other obj s))
      × ((j : ℕ) → byte_at (with_chunks s chunks) j ≡ with_link s a link id j)
      × IsMapped (with_chunks s chunks)
zobject_get-zobject_set s obj a id link other m here h ne =
    rw (getter link, getter other, setter link)
      (get_link-set_link s m obj a (small_of link) (large_of link) id (small_of other)
        (large_of other) here h.0 h.1 (different link other ne) (apart link other ne))
