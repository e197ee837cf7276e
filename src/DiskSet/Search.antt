-- ===== src/DiskSet/Search.antt =====
-- What the operations of include/diskset.hpp find in the database.
use network_algo.Prelude.{
  text_eq, All, subst, ◌≡◌, refl, ap, ◌∙◌, ◌⊎◌, inl, inr, Text, text_eq_refl, true, false, not,
  none, some, List, [], ◌∷◌, if◌then◌else◌, arith, Bool-cases,
}
use network_algo.DiskSet.Database.{
  Element, OrderedDb, Sign, below, same, above, place, from_target, last_alone, tail, is_empty,
}
use network_algo.DiskSet.{
  compare, Iterator, read_object, const_iterator, same_place, insert, begin, to_end, end, find,
  clear_loop, clear, empty,
}

last_alone-tail : (ks : List Text) → tail (last_alone ks) ≡ []
last_alone-tail [] = refl
last_alone-tail (k ∷ []) = refl
last_alone-tail (k ∷ j ∷ ks) = last_alone-tail (j ∷ ks)

Sign-cases : (s : Sign) → (s ≡ below) ⊎ (s ≡ same) ⊎ (s ≡ above)
Sign-cases below = inl refl
Sign-cases same = inr (inl refl)
Sign-cases above = inr (inr refl)

module _ (element : Element) (database : OrderedDb (compare element)) where
  pub valid-some :
      (it : database.Cursor) (k : Text) (ks : List Text)
      → database.ahead it ≡ k ∷ ks
      → (database.valid it ≡ true) × (database.key it ≡ k)
  valid-some it k ks h =
      (database.valid-ahead it ∙ ap (λ l. not (is_empty l)) h, database.key-ahead it k ks h)

  pub valid-none : (it : database.Cursor) → database.ahead it ≡ [] → database.valid it ≡ false
  valid-none it h = database.valid-ahead it ∙ ap (λ l. not (is_empty l)) h

  -- An iterator that stands at the end has a cursor that is not valid.
  abbrev pub IsEnd : Iterator element database → Type 0
  IsEnd i = database.valid i.it ≡ false

  pub end-found :
      (db : database.Db)
      → (e : Iterator element database) × (end element database db ≡ some e) × IsEnd e
  unfolding end to_end const_iterator
  end-found db =
      let last = database.seek_to_last db in
      elim (Bool-cases (database.valid last)) [
        | inl v ↦
            let after = valid-none (database.next last) (
              database.ahead-next last v
              ∙ ap tail (database.ahead-seek_to_last db)
              ∙ last_alone-tail (database.keys db)) in
            (const_iterator element database (database.next last), ground (arith, v, after), after)
        | inr v ↦ (const_iterator element database last, ground (arith, v), v)
      ]

  pub same_place-end :
      (i e : Iterator element database)
      → IsEnd e
      → same_place element database i e ≡ not (database.valid i.it)
  unfolding same_place
  same_place-end i e h = ground (arith, h)

  -- The target stands first among the keys from it on, once it has been put in its place.
  target-placed :
      (k : Text) (ks : List Text)
      → compare element k k ≡ same
      → (rest : List Text) × (from_target (compare element) k (place (compare element) k ks)
          ≡ k ∷ rest)
  target-placed k [] h = ([], ground (arith, h))
  target-placed k (j ∷ ks) h = elim (Sign-cases (compare element j k)) [
    | inl lower ↦ let (rest, found) = target-placed k ks h in (rest, ground (arith, lower, found))
    | inr (inl equal) ↦ (ks, ground (arith, equal, h))
    | inr (inr higher) ↦ (j ∷ ks, ground (arith, higher, h))
  ]

  -- Equal elements compare equal.
  compare_refl :
      (x : element.T)
      → element.less x x ≡ false
      → element.equal x x ≡ true
      → compare element (element.serialize x) (element.serialize x) ≡ same
  unfolding compare
  compare_refl x h k = ground (arith, element.deserialize-serialize x, h, k)

  found-head :
      (x : element.T) (db : database.Db) (rest : List Text)
      → database.ahead (database.seek (element.serialize x) db) ≡ element.serialize x ∷ rest
      → (i : Iterator element database) × (find element database x db ≡ some i)
        × (i.obj ≡ some x)
        × (database.valid i.it ≡ true)
  unfolding find const_iterator read_object
  found-head x db rest h =
      let it = database.seek (element.serialize x) db in
      let at = valid-some it (element.serialize x) rest h in
      (
        const_iterator element database it,
        ground (arith, at.0, at.1, text_eq_refl (element.serialize x)),
        ground (arith, at.0, at.1, element.deserialize-serialize x),
        at.0,
      )

-- No key is that of the element.
abbrev pub IsAbsent : (element : Element) → element.T → List Text → Type 0
IsAbsent element y ks = All (λ k. text_eq k (element.serialize y) ≡ false) ks

module _ (element : Element) (database : OrderedDb (compare element)) where
  from_target-IsAbsent :
      (y : element.T) (t : Text) (ks : List Text)
      → IsAbsent element y ks
      → IsAbsent element y (from_target (compare element) t ks)
  from_target-IsAbsent y t [] h = tt
  from_target-IsAbsent y t (j ∷ ks) h = elim (Sign-cases (compare element j t)) [
    | inl lower ↦
        let skip : from_target (compare element) t ks ≡ from_target (compare element) t (j ∷ ks) =
          ground (arith, lower) in
        subst (IsAbsent element y) skip (from_target-IsAbsent y t ks h.1)
    | inr (inl equal) ↦
        let stop : j ∷ ks ≡ from_target (compare element) t (j ∷ ks) = ground (arith, equal) in
        subst (IsAbsent element y) stop h
    | inr (inr higher) ↦
        let stop : j ∷ ks ≡ from_target (compare element) t (j ∷ ks) = ground (arith, higher) in
        subst (IsAbsent element y) stop h
  ]

  absent-end :
      (y : element.T) (db : database.Db) (ks : List Text)
      → database.ahead (database.seek (element.serialize y) db) ≡ ks
      → IsAbsent element y ks
      → find element database y db ≡ end element database db
  unfolding find
  absent-end y db [] h a =
      ground (arith, valid-none element database (database.seek (element.serialize y) db) h)
  absent-end y db (k ∷ ks) h a =
      let at = valid-some element database (database.seek (element.serialize y) db) k ks h in
      ground (arith, at.0, at.1, a.0)

-- After an `insert` that reports success, `find` of the element gives an iterator at the element,
-- which is not the one that `end` gives: for every content of the database, and every element that is
-- not less than itself and equals itself. An element whose key the database does not have is not
-- found.
pub find-insert :
    (element : Element) (database : OrderedDb (compare element)) (x : element.T) (db : database.Db)
    → element.less x x ≡ false
    → element.equal x x ≡ true
    → (insert element database x db).0 ≡ true
    → ((i : Iterator element database) × (e : Iterator element database) × (find element database x
            (insert element database x db).1
          ≡ some i)
        × (i.obj ≡ some x)
        × (end element database (insert element database x db).1 ≡ some e)
        × (same_place element database i e ≡ false))
      × ((y : element.T)
          → IsAbsent element y (database.keys db)
          → find element database y db ≡ end element database db)
unfolding insert
find-insert element database x db h k put =
    let target = element.serialize x in
    let db' = (database.put target db).1 in
    let placed : database.keys db' ≡ place (compare element) target (database.keys db) =
      database.keys-put target db ∙ ground (arith, put) in
    let (rest, first) =
      target-placed element database target (database.keys db)
        (compare_refl element database x h k) in
    let (i, found, obj, valid) =
      found-head element database x db' rest (
        database.ahead-seek target db'
        ∙ ap (from_target (compare element) target) placed
        ∙ first) in
    let (e, ends, is_end) = end-found element database db' in
    (
      (i, e, found, obj, ends, same_place-end element database i e is_end ∙ ap not valid),
      λ y a.
          absent-end element database y db
            (from_target (compare element) (element.serialize y) (database.keys db))
            (database.ahead-seek (element.serialize y) db)
            (from_target-IsAbsent element database y (element.serialize y) (database.keys db) a),
    )

-- `end` returns, and `empty` answers false, also when `begin` and `end` are the same: when the set has
-- no element.
empty-no_keys :
    (element : Element) (database : OrderedDb (compare element)) (db : database.Db)
    → database.keys db ≡ []
    → (e : Iterator element database) × (end element database db ≡ some e)
      × (same_place element database (begin element database db) e ≡ true)
      × (empty element database db ≡ false)
unfolding begin const_iterator empty
empty-no_keys element database db h =
    let first = database.seek_to_first db in
    let none_there = valid-none element database first (database.ahead-seek_to_first db ∙ h) in
    let (e, ends, is_end) = end-found element database db in
    (
      e,
      ends,
      same_place-end element database (begin element database db) e is_end
          ∙ ground (arith, none_there),
      ground (arith, none_there),
    )

-- `clear` leaves a set without elements as it is, and uses an iterator after its deletion, or the key
-- of an iterator that is not valid, on every other set.
pub clear-keys :
    (element : Element) (database : OrderedDb (compare element)) (db : database.Db)
    → clear element database db ≡ (if is_empty (database.keys db) then some db else none)
unfolding clear clear_loop
clear-keys element database db =
    let first = database.seek_to_first db in
    let valid =
      database.valid-ahead first ∙ ap (λ l. not (is_empty l)) (database.ahead-seek_to_first db) in
    ground (arith, valid)
