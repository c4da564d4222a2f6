-- ===== src/Examples/Rounds.antt =====
-- Tests of the state of a round (state.go).
use tupelo.Prelude.{some, List, [], ◌∷◌, ◌≡◌, refl, arith, Bool-cases, inl, inr, subst}
use tupelo.Prelude.Eq.{◌==◌}
use tupelo.GoString.{Bytes, bytes, bytes_eq_inst}
use tupelo.External.Hamt.{map_hamt}
use tupelo.External.BlockStore.{list_store, list_fetch}
use tupelo.GoMap.{lookup, insert, delete}
use tupelo.Request.{AddBlockRequest, AddBlockWrapper}
use tupelo.GlobalState.{GlobalState, find_current, add_inflights, background_process}
use tupelo.GlobalState.View.{AreStored, IsStored, background_process-find}
use tupelo.GlobalState.Added.{IsFound, add_inflights-find}
use tupelo.Examples.{transfer, rival, other}

-- A store that holds the request of `transfer` under its identifier.
abbrev store : List AddBlockRequest
store = rival.add_block_request ∷ transfer.add_block_request ∷ []

abbrev loaded : GlobalState map_hamt list_store
loaded = record { hamt = some []; inflight = (transfer.add_block_request.object_id, transfer) ∷ [] }

abbrev moved : GlobalState map_hamt list_store
moved = record { hamt = some ((transfer.add_block_request.object_id, 1 ∷ []) ∷ []); inflight = [] }

transfer-IsStored : IsStored map_hamt list_store store transfer
unfolding list_fetch
transfer-IsStored = (refl, (λ p. cc))

the_request : (w : AddBlockWrapper) → some transfer ≡ some w → transfer ≡ w
the_request w e = cc

loaded-AreStored : AreStored map_hamt list_store store loaded.inflight
unfolding lookup
loaded-AreStored k w e = elim (Bool-cases (transfer.add_block_request.object_id == k)) [
  | inl same ↦
      let found_it : some transfer ≡ some w = ground (arith, e, same) in
      subst (IsStored map_hamt list_store store) (the_request w found_it) transfer-IsStored
  | inr differs ↦ absurd (ground (arith, e, differs))
]

runs : background_process map_hamt list_store loaded ≡ some moved
unfolding background_process insert delete
runs = refl

background_process-find_example :
    ((j : Bytes)
      → find_current map_hamt list_store store j moved
        ≡ find_current map_hamt list_store store j loaded)
    × (moved.inflight ≡ [])
unfolding lookup
background_process-find_example =
    background_process-find map_hamt list_store store loaded moved (refl, tt) loaded-AreStored runs

add_inflights-find_example :
    IsFound map_hamt list_store store (bytes "did:a") (rival ∷ other ∷ []) loaded (
      find_current map_hamt list_store store
        (bytes "did:a")
        (add_inflights map_hamt list_store (rival ∷ other ∷ []) loaded))
add_inflights-find_example =
    add_inflights-find map_hamt list_store store (bytes "did:a") (rival ∷ other ∷ []) loaded [] refl
