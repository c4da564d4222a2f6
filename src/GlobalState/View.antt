-- ===== src/GlobalState/View.antt =====
-- What Find shows of a state (state.go), before and after the background work.
use tupelo.Prelude.{
  Option, none, some, [], ◌∷◌, ◌≡◌, ◌≢◌, inl, inr, refl, sym, ap, ◌∙◌, subst, Option-cases, arith,
}
use tupelo.Prelude.Eq.{eq-cases, test_of_ne}
use tupelo.GoString.{Bytes, bytes_eq_inst}
use tupelo.GoMap.{GoMap, lookup, delete, HasUniqueKeys}
use tupelo.GoMap.Laws.{lookup-head, lookup-tail, lookup-delete_self, lookup-delete_ne}
use tupelo.External.CidLib.{undef}
use tupelo.External.Hamt.{Hamt, found}
use tupelo.External.BlockStore.{BlockStore}
use tupelo.Request.{AddBlockWrapper}
use tupelo.GlobalState.{
  request, GlobalState, find_current, find_in, fetch_current, settle, settle_all, flushed,
  background_process,
}

module _ (hl : Hamt) (bs : BlockStore) where
  open hl use {Node, find, set, flush, find-set_self, find-set_ne, find-flush}
  open bs use {Store, fetch}

  -- The block store holds the request under its identifier.
  abbrev pub IsStored : Store → AddBlockWrapper → Type 0
  IsStored st w = (fetch w.cid st ≡ some w.add_block_request) × (w.cid ≢ undef)

  -- What the HAMT shows once the identifier of a stored request is set.
  fetch_current-stored :
      (st : Store) (w : AddBlockWrapper)
      → IsStored st w
      → fetch_current hl bs st (found w.cid) ≡ request w.add_block_request
  unfolding fetch_current
  fetch_current-stored st w h = rw (test_of_ne w.cid undef h.1, h.0)

  same_hamt :
      (st : Store) (j : Bytes) (n n' : Node) (o : Option AddBlockWrapper)
      → find j n' ≡ find j n
      → find_in hl bs st j (some n') o ≡ find_in hl bs st j (some n) o
  unfolding find_in
  same_hamt st j n n' none e = ap (fetch_current hl bs st) e
  same_hamt st j n n' (some w) e = refl

  settled-find_in :
      (st : Store) (k j : Bytes) (w : AddBlockWrapper) (n n' : Node)
      (m : GoMap Bytes AddBlockWrapper)
      → lookup k m ≡ some w
      → IsStored st w
      → set k w.cid n ≡ some n'
      → find_in hl bs st j (some n') (lookup j (delete k m))
        ≡ find_in hl bs st j (some n) (lookup j m)
  unfolding find_in
  settled-find_in st k j w n n' m there stored e = elim (eq-cases k j) [
    | inl same ↦
        subst
          (λ x.
            find_in hl bs st x (some n') (lookup x (delete k m))
            ≡ find_in hl bs st x (some n) (lookup x m))
          same
          (rw (lookup-delete_self k m, there, find-set_self k w.cid n e)
            (fetch_current-stored st w stored))
    | inr other ↦
        rw (lookup-delete_ne k j m other)
          (same_hamt st j n n' (lookup j m) (find-set_ne k j w.cid n e other))
  ]

  -- What one round of the background loop leaves.
  record Settles (st : Store) (k : Bytes) (gs gs' : GlobalState hl bs) : Type 0 where
    view : (j : Bytes) → find_current hl bs st j gs' ≡ find_current hl bs st j gs
    left : gs'.inflight ≡ delete k gs.inflight

  -- Moving a stored request to the HAMT changes nothing that Find shows.
  settle-Settles :
      (st : Store) (k : Bytes) (w : AddBlockWrapper) (gs gs' : GlobalState hl bs)
      → lookup k gs.inflight ≡ some w
      → IsStored st w
      → settle hl bs k w gs ≡ some gs'
      → Settles st k gs gs'
  unfolding settle find_current
  settle-Settles st k w gs gs' there stored e = elim (Option-cases gs.hamt) [
    | inl gone ↦ absurd (ground arith)
    | inr (n, here) ↦ elim (Option-cases (set k w.cid n)) [
      | inl refused ↦ absurd (ground arith)
      | inr (n', done) ↦
          let result : gs' ≡ record { hamt = some n'; inflight = delete k gs.inflight } =
            ground arith in
          record {
            view = λ j.
                rw (result, here) (settled-find_in st k j w n n' gs.inflight there stored done);
            left = ap (λ (g : GlobalState hl bs). g.inflight) result;
          }
    ]
  ]

  -- The requests that are still to move are those in flight.
  abbrev Reads : GoMap Bytes AddBlockWrapper → GlobalState hl bs → Type 0
  Reads es gs = (j : Bytes) → lookup j gs.inflight ≡ lookup j es

  abbrev pub AreStored : Store → GoMap Bytes AddBlockWrapper → Type 0
  AreStored st es = (k : Bytes) (w : AddBlockWrapper) → lookup k es ≡ some w → IsStored st w

  Reads-rest :
      (k : Bytes) (w : AddBlockWrapper) (es : GoMap Bytes AddBlockWrapper)
      (gs gs' : GlobalState hl bs)
      → lookup k es ≡ none
      → Reads ((k, w) ∷ es) gs
      → gs'.inflight ≡ delete k gs.inflight
      → Reads es gs'
  Reads-rest k w es gs gs' fresh r left j = rw left (elim (eq-cases k j) [
    | inl same ↦
        subst (λ x. lookup x (delete k gs.inflight) ≡ lookup x es) same
          (lookup-delete_self k gs.inflight ∙ sym fresh)
    | inr other ↦ lookup-delete_ne k j gs.inflight other ∙ r j ∙ lookup-tail k j w es other
  ])

  AreStored-rest :
      (st : Store) (k : Bytes) (w : AddBlockWrapper) (es : GoMap Bytes AddBlockWrapper)
      → lookup k es ≡ none
      → AreStored st ((k, w) ∷ es)
      → AreStored st es
  AreStored-rest st k w es fresh a j v h = elim (eq-cases k j) [
    | inl same ↦ absurd (cc)
    | inr other ↦ a j v (lookup-tail k j w es other ∙ h)
  ]

  -- The loop of the background work, over all requests in flight.
  settle_all-Settles :
      (st : Store) (es : GoMap Bytes AddBlockWrapper) (gs gs' : GlobalState hl bs)
      → HasUniqueKeys es
      → AreStored st es
      → Reads es gs
      → settle_all hl bs es gs ≡ some gs'
      → ((j : Bytes) → find_current hl bs st j gs' ≡ find_current hl bs st j gs) × Reads [] gs'
  unfolding settle_all
  settle_all-Settles st [] gs gs' u a r e =
      let same : gs ≡ gs' = ground arith in
      subst
        (λ (g : GlobalState hl bs).
          ((j : Bytes) → find_current hl bs st j g ≡ find_current hl bs st j gs) × Reads [] g)
        same ((λ j. refl), r)
  settle_all-Settles st ((k, w) ∷ es) gs gs' u a r e = elim (Option-cases (settle hl bs k w gs)) [
    | inl refused ↦ absurd (ground arith)
    | inr (g, one) ↦
        let s : Settles st k gs g =
          settle-Settles st k w gs g (r k ∙ lookup-head k w es) (a k w (lookup-head k w es)) one in
        let (later, rest) =
          settle_all-Settles st es g gs' u.1 (AreStored-rest st k w es u.0 a)
            (Reads-rest k w es gs g u.0 r s.left) (ground arith) in
        ((λ j. later j ∙ s.view j), rest)
  ]

  emptied : (m : GoMap Bytes AddBlockWrapper) → ((j : Bytes) → lookup j m ≡ none) → m ≡ []
  emptied [] h = refl
  emptied ((k, w) ∷ m) h = absurd (cc (h k, lookup-head k w m))

  flush_keeps :
      (st : Store) (j : Bytes) (n n' : Node) (o : Option AddBlockWrapper)
      → flush n ≡ some n'
      → find_in hl bs st j (some n') o ≡ find_in hl bs st j (some n) o
  flush_keeps st j n n' o e = same_hamt st j n n' o (find-flush j n e)

  flushed-keeps :
      (st : Store) (gs gs' : GlobalState hl bs)
      → flushed hl bs gs gs.hamt ≡ some gs'
      → ((j : Bytes) → find_current hl bs st j gs' ≡ find_current hl bs st j gs)
        × (gs'.inflight ≡ gs.inflight)
  unfolding flushed find_current
  flushed-keeps st gs gs' e = elim (Option-cases gs.hamt) [
    | inl gone ↦ absurd (ground arith)
    | inr (n, here) ↦ elim (Option-cases (flush n)) [
      | inl refused ↦ absurd (ground arith)
      | inr (n', done) ↦
          let result : gs' ≡ record gs { hamt = some n' } = ground arith in
          (
            (λ j. rw (result, here) (flush_keeps st j n n' (lookup j gs.inflight) done)),
            ap (λ (g : GlobalState hl bs). g.inflight) result,
          )
    ]
  ]

  -- Where the keys in flight are unique and the store holds every request in flight, the background
  -- work, if the HAMT gives no error, leaves what Find returns for every object as it was, and
  -- leaves nothing in flight.
  pub background_process-find :
      (st : Store) (gs gs' : GlobalState hl bs)
      → HasUniqueKeys gs.inflight
      → AreStored st gs.inflight
      → background_process hl bs gs ≡ some gs'
      → ((j : Bytes) → find_current hl bs st j gs' ≡ find_current hl bs st j gs)
        × (gs'.inflight ≡ [])
  unfolding background_process lookup
  background_process-find st gs gs' u a e = elim (Option-cases (settle_all hl bs gs.inflight gs)) [
    | inl refused ↦ absurd (ground arith)
    | inr (g, moved) ↦
        let (view, none_left) = settle_all-Settles st gs.inflight gs g u a (λ j. refl) moved in
        let (same, left) = flushed-keeps st g gs' (ground arith) in
        ((λ j. same j ∙ view j), left ∙ emptied g.inflight none_left)
  ]
