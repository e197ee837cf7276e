-- ===== src/DiskSet.antt =====
-- `DiskSet` of include/diskset.hpp: a set in an ordered LevelDB database. The decrement of an iterator
-- is left out, since it does not compile once it is used.
pub mod Database
pub mod Search
pub mod Walk
mod Tests
use network_algo.Prelude.{
  ℕ, zero, suc, Text, text_eq, Bool, true, false, not, ◌&&◌, Option, none, some, if◌then◌else◌,
  ◌==◌,
}
use network_algo.DiskSet.Database.{Element, OrderedDb, Sign, below, same, above}

module _ (element : Element) where
  -- `SmartComparator::Compare`
  unfoldable pub compare : Text → Text → Sign
  compare a b =
      let obj_a = element.deserialize a in
      let obj_b = element.deserialize b in
      if element.less obj_a obj_b then below else if element.equal obj_a obj_b then same else above

  module _ (database : OrderedDb compare) where
    -- `Iterator_c`; its object is not set as long as no element was read.
    pub record Iterator : Type 0 where
      pub it : database.Cursor
      pub obj : Option element.T

    -- The object after a move of the cursor.
    unfoldable pub read_object : database.Cursor → Option element.T → Option element.T
    read_object it obj =
        if database.valid it then some (element.deserialize (database.key it)) else obj

    unfoldable pub const_iterator : database.Cursor → Iterator
    unfolding read_object
    const_iterator it = record { it = it; obj = read_object it none }

    -- `operator==`
    unfoldable pub same_place : Iterator → Iterator → Bool
    same_place a b =
        if database.valid a.it
        then database.valid b.it && text_eq (database.key a.it) (database.key b.it)
        else not (database.valid b.it)

    -- `operator++`. `none` is the assertion of `Next` that fails at a cursor that is not valid.
    unfoldable pub advance : Iterator → Option Iterator
    unfolding read_object
    advance i =
        if database.valid i.it
        then (let it = database.next i.it in some (record { it = it; obj = read_object it i.obj }))
        else none

    -- The status of `Put` is returned.
    unfoldable pub insert : element.T → database.Db → Bool × database.Db
    insert x db = database.put (element.serialize x) db

    unfoldable pub begin : database.Db → Iterator
    unfolding const_iterator
    begin db = const_iterator (database.seek_to_first db)

    -- `while (it->Valid())` of `end`
    unfoldable pub to_end : ℕ → database.Cursor → Option database.Cursor
    to_end zero it = none
    to_end (suc rounds) it =
        let rest = to_end rounds (database.next it) in if database.valid it then rest else some it

    unfoldable pub end : database.Db → Option Iterator
    unfolding to_end const_iterator
    end db = elim (to_end 2 (database.seek_to_last db)) [
      | none ↦ none
      | some it ↦ some (const_iterator it)
    ]

    unfoldable pub find : element.T → database.Db → Option Iterator
    unfolding end const_iterator
    find x db =
        let it = database.seek (element.serialize x) db in
        if database.valid it && text_eq (database.key it) (element.serialize x)
        then some (const_iterator it)
        else end db

    -- The pointer of `clear`, by two names.
    pub data Pointer : Type 0 where
      live : database.Cursor → Pointer
      deleted : Pointer

    -- The loop of `clear`. `none` is the use of a deleted iterator, or the key of one that is not valid.
    unfoldable pub clear_loop : ℕ → Pointer → database.Db → Option database.Db
    clear_loop zero p db = none
    clear_loop (suc rounds) deleted db = none
    clear_loop (suc rounds) (live it) db =
        let moved = database.next it in
        let rest = clear_loop rounds deleted (database.delete (database.key moved) db) in
        if database.valid it then if database.valid moved then rest else none else some db

    unfoldable pub clear : database.Db → Option database.Db
    unfolding clear_loop
    clear db = clear_loop 2 (live (database.seek_to_first db)) db

    unfoldable pub empty : database.Db → Bool
    empty db = if database.valid (database.seek_to_first db) then false else false
