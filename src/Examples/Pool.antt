-- ===== src/Examples/Pool.antt =====
-- Tests of the pool and of the checks of checkpoints (mempool.go, snowballnetwork.go).
use tupelo.Prelude.{some, none, List, [], ◌∷◌, ◌≡◌, ◌≢◌, ◌↔◌, refl, true, false, arith}
use tupelo.GoString.{Bytes, bytes, bytes_eq_inst, format_uint}
use tupelo.External.CidLib.{plain}
use tupelo.External.Float.{milli}
use tupelo.GoMap.{lookup, insert, values}
use tupelo.Mempool.{
  Mempool, add, new_mempool, key_of, preferred, delete_id_and_conflict_set, bulk_delete,
  to_conflict_set_id, contains_all,
}
use tupelo.Mempool.Keys.{to_conflict_set_id-injective, to_conflict_set_id_collides}
use tupelo.Mempool.Invariant.{IsValid, new_mempool-IsValid}
use tupelo.Mempool.Add.{IsConsistent, add-IsValid}
use tupelo.Mempool.Resolution.{delete-IsValid, delete_resolves, bulk_delete-IsValid}
use tupelo.Snowballer.{returns, mempool_has_all, has_conflicting, SnowballerState, do_tick}
use tupelo.Snowballer.Checks.{
  Casts, Keys, NoRepeats, missing_from, mempool_has_all_lem, has_conflicting_lem,
}
use tupelo.Snowballer.Proposal.{preferred_passes, start_idempotent}
use tupelo.Snowballer.{start}
use tupelo.Snowballer.Screening.{Screened, AllCast, screen_vote-Screened, do_tick-returns}
use tupelo.Examples.{transfer, rival, other, agreed, conflicting, request_of, in_order}

abbrev one : Mempool
one = add plain rival new_mempool

abbrev two : Mempool
two = add plain transfer one

abbrev three : Mempool
three = add plain other two

one-IsValid : IsValid plain one
unfolding lookup
one-IsValid =
    add-IsValid plain rival new_mempool (new_mempool-IsValid plain) (λ p. cc) (λ v e. absurd (cc))

transfer_is_new : IsConsistent transfer one
unfolding add lookup insert
transfer_is_new v e = absurd (cc)

other_is_new : IsConsistent other two
unfolding add lookup insert
other_is_new v e = absurd (cc)

two-IsValid : IsValid plain two
two-IsValid = add-IsValid plain transfer one one-IsValid (λ p. cc) transfer_is_new

three-IsValid : IsValid plain three
three-IsValid = add-IsValid plain other two two-IsValid (λ p. cc) other_is_new

transfer_there : lookup (1 ∷ []) three.abrs ≡ some transfer
unfolding add lookup insert
transfer_there = refl

add-IsValid_example : IsValid plain (add plain transfer one)
add-IsValid_example = add-IsValid plain transfer one one-IsValid (λ p. cc) transfer_is_new

delete-IsValid_example : IsValid plain (delete_id_and_conflict_set (1 ∷ []) three)
delete-IsValid_example = delete-IsValid plain three three-IsValid (1 ∷ [])

delete_resolves_example :
    (lookup (2 ∷ []) (delete_id_and_conflict_set (1 ∷ []) three).abrs ≡ some rival)
    ↔ ((lookup (2 ∷ []) three.abrs ≡ some rival) × (key_of transfer ≢ key_of rival))
delete_resolves_example =
    delete_resolves plain three three-IsValid (1 ∷ []) (2 ∷ []) transfer rival transfer_there

bulk_delete-IsValid_example : IsValid plain (bulk_delete ((1 ∷ []) ∷ (3 ∷ []) ∷ []) three)
bulk_delete-IsValid_example =
    bulk_delete-IsValid plain ((1 ∷ []) ∷ (3 ∷ []) ∷ []) three three-IsValid

preferred-Casts : Casts plain (preferred three) (preferred three)
unfolding add lookup insert preferred values to_conflict_set_id format_uint
preferred-Casts = (refl, (refl, tt))

preferred_passes_example :
    (mempool_has_all plain three (preferred three) ≡ returns (true, []))
    × (has_conflicting plain three (preferred three) ≡ returns false)
preferred_passes_example = preferred_passes plain three three-IsValid preferred-Casts

mempool_has_all_lem_example :
    mempool_has_all plain one ((2 ∷ []) ∷ (3 ∷ []) ∷ [])
    ≡ returns (
      contains_all ((2 ∷ []) ∷ (3 ∷ []) ∷ []) one,
      missing_from plain one ((2 ∷ []) ∷ (3 ∷ []) ∷ []),
    )
mempool_has_all_lem_example =
    mempool_has_all_lem plain one ((2 ∷ []) ∷ (3 ∷ []) ∷ []) ((2 ∷ []) ∷ (3 ∷ []) ∷ [])
      (refl, (refl, tt))

has_conflicting_lem_example :
    (has_conflicting plain three ((1 ∷ []) ∷ (2 ∷ []) ∷ []) ≡ returns false)
    ↔ ((ks : List Bytes) × Keys plain three ((1 ∷ []) ∷ (2 ∷ []) ∷ []) ks × NoRepeats plain ks)
has_conflicting_lem_example =
    has_conflicting_lem plain three ((1 ∷ []) ∷ (2 ∷ []) ∷ []) ((1 ∷ []) ∷ (2 ∷ []) ∷ [])
      (refl, (refl, tt))

screen_vote-Screened_example : Screened plain milli three conflicting ((1 ∷ []) ∷ (2 ∷ []) ∷ [])
screen_vote-Screened_example =
    screen_vote-Screened plain milli three conflicting ((1 ∷ []) ∷ (2 ∷ []) ∷ []) (refl, (refl, tt))

abbrev waiting : SnowballerState plain milli
waiting = record {
  snowball = record {
    alpha = 666;
    beta = 1;
    k = 3;
    count = 0;
    counts = [];
    total_count = 0;
    preferred = none;
    last = none;
    decided = false;
  };
  height = 1;
  started = true;
}

answers_cast : AllCast plain milli (agreed ∷ conflicting ∷ [])
answers_cast = (
  ((1 ∷ []) ∷ (3 ∷ []) ∷ [], (refl, (refl, tt))),
  (((1 ∷ []) ∷ (2 ∷ []) ∷ [], (refl, (refl, tt))), tt),
)

do_tick-returns_example :
    (r : SnowballerState plain milli × List Bytes) × (do_tick plain milli in_order in_order three
        (agreed ∷ conflicting ∷ [])
        waiting
      ≡ returns r)
do_tick-returns_example =
    do_tick-returns plain milli in_order in_order three (agreed ∷ conflicting ∷ []) waiting
      answers_cast

to_conflict_set_id-injective_example :
    (transfer.add_block_request.object_id ≡ rival.add_block_request.object_id)
    × (transfer.add_block_request.height ≡ rival.add_block_request.height)
unfolding to_conflict_set_id
to_conflict_set_id-injective_example =
    to_conflict_set_id-injective transfer.add_block_request rival.add_block_request refl
      (omega arith) (omega arith) refl

to_conflict_set_id_collides_example :
    to_conflict_set_id (request_of (bytes "a1") [] 2)
    ≡ to_conflict_set_id (request_of (bytes "a") [] 12)
to_conflict_set_id_collides_example =
    to_conflict_set_id_collides (request_of (bytes "a1") [] 2) (request_of (bytes "a") [] 12)
      (bytes "did:a") 1 (omega arith) (omega arith) (omega arith) refl refl refl

second_start :
    start plain milli
      (λ c. 7 ∷ [])
      two
      (start plain milli (λ c. 7 ∷ []) three (record waiting { started = false }))
    ≡ start plain milli (λ c. 7 ∷ []) three (record waiting { started = false })
second_start =
    start_idempotent plain milli (λ c. 7 ∷ []) three two (record waiting { started = false })
