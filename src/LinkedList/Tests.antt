-- ===== src/LinkedList/Tests.antt =====
-- A list of two elements, and the operations on it.
use non_os.Base.{ℕ, ◌≡◌, refl, none, some, List, [], ◌∷◌, ◌++◌, done, arith}
use non_os.LinkedList.{Store, LinkedList, append, sorted_remove, insert_after, sorted_insert}
use non_os.LinkedList.Chain.{stop, link, Represents}
use non_os.LinkedList.Ends.{Yields, TakesFirst, append-Represents, sorted_remove-TakesFirst}
use non_os.LinkedList.Sorted.{insert}
use non_os.LinkedList.Insertion.{IsSorted, sorted_insert-Represents}

-- The second element in the store is the first of the list.
abbrev store : Store ℕ
store =
    some (record { item = 100; key = 7; next = none })
    ∷ some (record { item = 200; key = 4; next = some 0 })
    ∷ []

abbrev two : LinkedList
two = record { first = some 1; last = some 0 }

abbrev items : List (ℕ × ℕ)
items = (4, 200) ∷ (7, 100) ∷ []

two-Represents : Represents store two items
two-Represents = record {
  addresses = 1 ∷ 0 ∷ [];
  chain = link refl (link refl stop);
  separate = ((omega arith, tt), (tt, tt));
  last = refl;
}

append-Represents_example : Yields (append two store 300) (items ++ (0, 300) ∷ [])
append-Represents_example = append-Represents two store items 300 two-Represents

sorted_remove-TakesFirst_example : TakesFirst (sorted_remove two store) two store items
sorted_remove-TakesFirst_example = sorted_remove-TakesFirst two store items two-Represents

sorted_insert-Represents_example :
    Yields (sorted_insert two store 300 5) (insert 5 300 items)
    × (IsSorted items → IsSorted (insert 5 300 items))
sorted_insert-Represents_example = sorted_insert-Represents two store items 300 5 two-Represents

in_the_middle : insert 4 300 items ≡ (4, 200) ∷ (4, 300) ∷ (7, 100) ∷ []
in_the_middle = refl

linked_in_the_middle :
    sorted_insert two store 300 5
    ≡ done (
      two,
      some (record { item = 100; key = 7; next = none })
          ∷ some (record { item = 200; key = 4; next = some 2 })
          ∷ some (record { item = 300; key = 5; next = some 0 })
          ∷ [],
    )
unfolding sorted_insert insert_after
linked_in_the_middle = refl
