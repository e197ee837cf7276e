-- ===== src/DiskSet/Walk.antt =====
-- The way of an iterator of include/diskset.hpp from `begin` to `end`.
use network_algo.Prelude.{
  ℕ, zero, suc, ◌≡◌, refl, ap, ◌∙◌, Text, true, false, not, Option, none, some, List, [], ◌∷◌,
  get_elem?, arith, length, ◌≤◌, ◌<◌,
}
use network_algo.DiskSet.Database.{Element, OrderedDb, tail}
use network_algo.DiskSet.{
  compare, Iterator, read_object, const_iterator, same_place, advance, begin, end,
}
use network_algo.DiskSet.Search.{valid-some, valid-none, end-found, same_place-end}

module _ (element : Element) (database : OrderedDb (compare element)) where
  -- `++`, some times
  abbrev pub advance_by : ℕ → Iterator element database → Option (Iterator element database)
  advance_by zero i = some i
  advance_by (suc n) i = elim (advance element database i) [ none ↦ none | some j ↦ advance_by n j ]

  -- An iterator at the first of some keys holds its element.
  At : List Text → Iterator element database → Type 0
  At ks i =
      (database.ahead i.it ≡ ks)
      × ((k : Text) (rest : List Text) → ks ≡ k ∷ rest → i.obj ≡ some (element.deserialize k))

  read_object-At :
      (it : database.Cursor) (obj : Option element.T) (ks : List Text)
      → database.ahead it ≡ ks
      → At ks (record { it = it; obj = read_object element database it obj })
  unfolding At read_object
  read_object-At it obj ks h = (
    h,
    λ k rest e. let v = valid-some element database it k rest (h ∙ e) in ground (arith, v.0, v.1),
  )

  begin-At : (db : database.Db) → At (database.keys db) (begin element database db)
  unfolding begin const_iterator
  begin-At db =
      read_object-At (database.seek_to_first db) none (database.keys db)
        (database.ahead-seek_to_first db)

  advance-At :
      (i : Iterator element database) (k : Text) (ks : List Text)
      → At (k ∷ ks) i
      → (j : Iterator element database) × (advance element database i ≡ some j) × At ks j
  unfolding advance At
  advance-At i k ks h =
      let here = valid-some element database i.it k ks h.0 in
      let it = database.next i.it in
      (
        record { it = it; obj = read_object element database it i.obj },
        ground (arith, here.0),
        read_object-At it i.obj ks (database.ahead-next i.it here.0 ∙ ap tail h.0),
      )

  advance-none : (i : Iterator element database) → At [] i → advance element database i ≡ none
  unfolding advance At
  advance-none i h = ground (arith, valid-none element database i.it h.0)

  -- Where `++` leads to, with some keys ahead and the end at `e`: `n` times at most as often as there are keys.
  abbrev pub Leads : ℕ → List Text → Iterator element database → Iterator element database → Type 0
  Leads n ks i e =
      (j : Iterator element database) × (advance_by n i ≡ some j)
      × ((k : Text)
          → get_elem? ks n ≡ some k
          → (j.obj ≡ some (element.deserialize k)) × (same_place element database j e ≡ false))
      × (n ≡ length ks → same_place element database j e ≡ true)

  standing :
      (ks : List Text) (i e : Iterator element database)
      → database.valid e.it ≡ false
      → At ks i
      → Leads 0 ks i e
  unfolding At
  standing [] i e v h = (
    i,
    refl,
    (λ k f. absurd (cc)),
    λ f. same_place-end element database i e v ∙ ap not (valid-none element database i.it h.0),
  )
  standing (j ∷ ks) i e v h =
      let first = valid-some element database i.it j ks h.0 in
      (
        i,
        refl,
        (λ k f.
            let at : j ≡ k = cc in
            (
              h.1 j ks refl ∙ ap (λ (t : Text). some (element.deserialize t)) at,
              same_place-end element database i e v ∙ ap not first.0,
            )),
        λ f. absurd (omega (arith, f)),
      )

  leads :
      (n : ℕ) (ks : List Text) (i e : Iterator element database)
      → database.valid e.it ≡ false
      → At ks i
      → n ≤ length ks
      → Leads n ks i e
  leads zero ks i e v h le = standing ks i e v h
  leads (suc n) [] i e v h le = absurd (omega (arith, le))
  leads (suc n) (k ∷ ks) i e v h le =
      let (j, moved, at) = advance-At i k ks h in
      let (last, led, here, ends) = leads n ks j e v at (omega (arith, le)) in
      (last, rw (advance_by, moved) led, here, λ f. ends (omega (arith, f)))

  -- Behind the end, `++` fails.
  leads-none :
      (n : ℕ) (ks : List Text) (i : Iterator element database)
      → At ks i
      → length ks < n
      → advance_by n i ≡ none
  leads-none zero ks i h more = absurd (omega (arith, more))
  leads-none (suc n) [] i h more = rw (advance_by, advance-none i h) refl
  leads-none (suc n) (k ∷ ks) i h more =
      let (j, moved, at) = advance-At i k ks h in
      rw (advance_by, moved) (leads-none n ks j at (omega (arith, more)))

-- From `begin`, as many ++ as there are keys before a key reach the element of that key, which is not `end`, as
-- many as there are keys reach `end`, and one more fails in the assertion of LevelDB's `Next`.
pub begin-walk :
    (element : Element) (database : OrderedDb (compare element)) (db : database.Db)
    → (e : Iterator element database) × (end element database db ≡ some e)
      × ((n : ℕ)
          → (n ≤ length (database.keys db)
              → Leads element database n (database.keys db) (begin element database db) e)
            × (length (database.keys db) < n
                → advance_by element database n (begin element database db) ≡ none))
begin-walk element database db =
    let (e, ends, is_end) = end-found element database db in
    let first = begin-At element database db in
    (
      e,
      ends,
      λ n. (
        (λ le.
            leads element database n (database.keys db) (begin element database db) e is_end first
              le),
        λ more.
            leads-none element database n (database.keys db) (begin element database db) first more,
      ),
    )
