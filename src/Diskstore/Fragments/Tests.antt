-- ===== src/Diskstore/Fragments/Tests.antt =====
-- The stores of fragments and subtrees at concrete inputs.
use stumpt.Base.{ℕ, ◌≡◌, refl, arith, some, [], ◌∷◌, List}
use stumpt.Base.Maps.{nat_eq, lookup}
use stumpt.Diskstore.Database.{Bytes}
use stumpt.Diskstore.Database.Memory.{memory}
use stumpt.Diskstore.Database.Batches.{write_chunks}
use stumpt.Diskstore.Keys.Ordering.{Pair}
use stumpt.Diskstore.Fragments.{
  FragmentStore, MinerSubtreeStore, save_batch, load, load-save_batch, fragment_puts,
}

abbrev empty_fragments : FragmentStore (List Pair)
empty_fragments = record { db = [] }

abbrev two_fragments : List (ℕ × Bytes)
two_fragments = (4, 1 ∷ []) ∷ (5, 2 ∷ []) ∷ []

load-save_batch_example :
    load memory 0 5 3 (save_batch memory 0 3 two_fragments empty_fragments).0 ≡ some (2 ∷ [])
unfolding lookup save_batch write_chunks fragment_puts
load-save_batch_example =
    load-save_batch memory 0 3 0 5 3 two_fragments empty_fragments (omega arith) (omega arith)
      (omega arith) (omega arith) (omega arith) (omega arith, (omega arith, tt)) (refl, (refl, tt))
      refl

abbrev empty_subtrees : MinerSubtreeStore (List Pair)
empty_subtrees = record { db = [] }
