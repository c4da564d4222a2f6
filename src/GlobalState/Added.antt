-- ===== src/GlobalState/Added.antt =====
-- What Find shows of a state (state.go) once addInflights has added requests to it.
use tupelo.Prelude.{some, List, [], ◌∷◌, ◌++◌, ◌⊎◌, All, ◌≡◌, ◌≢◌, inl, inr, refl, sym, ap, ◌∙◌}
use tupelo.Prelude.Eq.{eq-cases}
use tupelo.GoString.{Bytes, bytes_eq_inst}
use tupelo.GoMap.{insert}
use tupelo.GoMap.Laws.{lookup-insert_self, lookup-insert_ne}
use tupelo.External.Hamt.{Hamt}
use tupelo.External.BlockStore.{BlockStore}
use tupelo.Request.{AddBlockWrapper}
use tupelo.GlobalState.{Current, request, GlobalState, find_current, find_in, add_inflights}

module _ (hl : Hamt) (bs : BlockStore) where
  open hl use {Node}
  open bs use {Store}

  -- The last request for object `j` in the list.
  pub record IsLast (j : Bytes) (ws : List AddBlockWrapper) (w : AddBlockWrapper) : Type 0 where
    pub before : List AddBlockWrapper
    pub after : List AddBlockWrapper
    pub split : ws ≡ before ++ w ∷ after
    pub is_for : w.add_block_request.object_id ≡ j
    pub none_later : All (λ (v : AddBlockWrapper). v.add_block_request.object_id ≢ j) after

  IsLast-later :
      (j : Bytes) (x : AddBlockWrapper) (ws : List AddBlockWrapper) (w : AddBlockWrapper)
      → IsLast j ws w
      → IsLast j (x ∷ ws) w
  IsLast-later j x ws w l = record {
    before = x ∷ l.before;
    after = l.after;
    split = ap (λ vs. x ∷ vs) l.split;
    is_for = l.is_for;
    none_later = l.none_later;
  }

  -- What stands for the object `j` after the requests `ws`: the last of them for `j`, or, where
  -- none is for `j`, what Find returned before.
  abbrev pub IsFound : Store → Bytes → List AddBlockWrapper → GlobalState hl bs → Current → Type 0
  IsFound st j ws gs c =
      ((w : AddBlockWrapper) × IsLast j ws w × (c ≡ request w.add_block_request))
      ⊎ (All (λ (w : AddBlockWrapper). w.add_block_request.object_id ≢ j) ws
          × (c ≡ find_current hl bs st j gs))

  find_current-added :
      (st : Store) (w : AddBlockWrapper) (gs : GlobalState hl bs) (n : Node)
      → gs.hamt ≡ some n
      → find_current hl bs st w.add_block_request.object_id
          (record gs { inflight = insert w.add_block_request.object_id w gs.inflight })
        ≡ request w.add_block_request
  unfolding find_current
  find_current-added st w gs n here =
      rw (here, lookup-insert_self w.add_block_request.object_id w gs.inflight) refl

  find_current-other :
      (st : Store) (j : Bytes) (w : AddBlockWrapper) (gs : GlobalState hl bs)
      → w.add_block_request.object_id ≢ j
      → find_current hl bs st j
          (record gs { inflight = insert w.add_block_request.object_id w gs.inflight })
        ≡ find_current hl bs st j gs
  unfolding find_current
  find_current-other st j w gs d =
      ap (find_in hl bs st j gs.hamt)
        (lookup-insert_ne w.add_block_request.object_id j w gs.inflight d)

  -- After requests are added in flight to a state with a HAMT, Find returns for an object the last
  -- of them for that object, and where none of them is for it what Find returned before.
  pub add_inflights-find :
      (st : Store) (j : Bytes) (ws : List AddBlockWrapper) (gs : GlobalState hl bs) (n : Node)
      → gs.hamt ≡ some n
      → IsFound st j ws gs (find_current hl bs st j (add_inflights hl bs ws gs))
  unfolding add_inflights
  add_inflights-find st j [] gs n here = inr (tt, refl)
  add_inflights-find st j (w ∷ ws) gs n here =
      let k = w.add_block_request.object_id in
      let next : GlobalState hl bs = record gs { inflight = insert k w gs.inflight } in
      elim (add_inflights-find st j ws next n here) [
        | inl (v, l, e) ↦ inl (v, IsLast-later j w ws v l, e)
        | inr (others, e) ↦ elim (eq-cases k j) [
          | inl same ↦ inl (
            w,
            record { before = []; after = ws; split = refl; is_for = same; none_later = others },
            e
                ∙ ap (λ x. find_current hl bs st x next) (sym same)
                ∙ find_current-added st w gs n here,
          )
          | inr other ↦ inr ((other, others), e ∙ find_current-other st j w gs other)
        ]
      ]
