-- ===== src/DiskSet/Tests.antt =====
-- Instances of the properties of include/diskset.hpp, on a database that is the list of its keys.
use network_algo.Prelude.{
  ℕ, ◌≡◌, ◌≤◌, ◌<◌, refl, ap, true, false, not, none, some, List, [], ◌∷◌, Text, text_eq, ltb, ◌==◌,
  if◌then◌else◌,
}
use network_algo.DiskSet.Database.{
  Element, OrderedDb, place, from_target, last_alone, tail, is_empty,
}
use network_algo.DiskSet.{compare, Iterator, same_place, insert, begin, end, find, clear}
use network_algo.DiskSet.Search.{IsAbsent, find-insert, clear-keys}
use network_algo.DiskSet.Walk.{advance_by, Leads, begin-walk}

abbrev first_code : Text → ℕ
first_code [] = 0
first_code (c ∷ s) = c

abbrev numbers : Element
numbers = record {
  T = ℕ;
  less = ltb;
  equal = λ a b. a == b;
  serialize = λ x. x ∷ [];
  deserialize = first_code;
  deserialize-serialize = λ x. refl;
}

abbrev without : Text → List Text → List Text
without k [] = []
without k (j ∷ ks) = let rest = without k ks in if text_eq j k then rest else j ∷ rest

abbrev first_key : List Text → Text
first_key [] = []
first_key (k ∷ ks) = k

key_of : (it : List Text) (k : Text) (ks : List Text) → it ≡ k ∷ ks → first_key it ≡ k
key_of it k ks h = ap first_key h

abbrev key_list : OrderedDb (compare numbers)
key_list = record {
  Db = List Text;
  Cursor = List Text;
  put = λ k db. (true, place (compare numbers) k db);
  delete = without;
  seek_to_first = λ db. db;
  seek_to_last = last_alone;
  seek = from_target (compare numbers);
  next = tail;
  valid = λ it. not (is_empty it);
  key = first_key;
  keys = λ db. db;
  ahead = λ it. it;
  keys-put = λ k db. refl;
  ahead-seek_to_first = λ db. refl;
  ahead-seek_to_last = λ db. refl;
  ahead-seek = λ k db. refl;
  ahead-next = λ it v. refl;
  valid-ahead = λ it. refl;
  key-ahead = key_of;
}

abbrev two_numbers : List Text
two_numbers = (2 ∷ []) ∷ (5 ∷ []) ∷ []

insert_succeeds : (insert numbers key_list 3 two_numbers).0 ≡ true
unfolding insert
insert_succeeds = refl

find-insert_example :
    ((i : Iterator numbers key_list) × (e : Iterator numbers key_list) × (find numbers key_list 3
          (insert numbers key_list 3 two_numbers).1
        ≡ some i)
      × (i.obj ≡ some 3)
      × (end numbers key_list (insert numbers key_list 3 two_numbers).1 ≡ some e)
      × (same_place numbers key_list i e ≡ false))
    × ((y : ℕ)
        → IsAbsent numbers y two_numbers
        → find numbers key_list y two_numbers ≡ end numbers key_list two_numbers)
find-insert_example = find-insert numbers key_list 3 two_numbers refl refl insert_succeeds

clear-keys_example : clear numbers key_list two_numbers ≡ none
clear-keys_example = clear-keys numbers key_list two_numbers

begin-walk_example :
    (e : Iterator numbers key_list) × (end numbers key_list two_numbers ≡ some e)
    × ((n : ℕ)
        → (n ≤ 2 → Leads numbers key_list n two_numbers (begin numbers key_list two_numbers) e)
          × (2 < n → advance_by numbers key_list n (begin numbers key_list two_numbers) ≡ none))
begin-walk_example = begin-walk numbers key_list two_numbers
