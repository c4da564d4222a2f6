-- ===== src/External/BlockStore.antt =====
-- hamt.CborIpldStore over the node store: requests by the identifier of their encoding.
use tupelo.Prelude.{ℕ, suc, zero, Option, none, some, ◌≡◌, refl, List, [], ◌∷◌, ◌++◌, length}
use tupelo.External.CidLib.{Cid, undef}
use tupelo.Request.{AddBlockRequest}
use tupelo.Prelude.{◌≢◌}

pub record BlockStore : Type 1 where
  pub Store : Type 0
  -- `Put`: none is an error.
  pub put : AddBlockRequest → Store → Option (Cid × Store)
  -- `Get`: none is an error, a missing block among them.
  pub fetch : Cid → Store → Option AddBlockRequest
  pub fetch-put :
      (a : AddBlockRequest) (s : Store) {c : Cid} {s' : Store}
      → put a s ≡ some (c, s')
      → fetch c s' ≡ some a
  -- A later `Put` loses no block.
  pub fetch-put_kept :
      (a b : AddBlockRequest) (s : Store) (d : Cid) {c : Cid} {s' : Store}
      → put a s ≡ some (c, s')
      → fetch d s ≡ some b
      → fetch d s' ≡ some b
  -- The identifier of an encoding is defined.
  pub put-defined :
      (a : AddBlockRequest) (s : Store) {c : Cid} {s' : Store} → put a s ≡ some (c, s') → c ≢ undef

nth : ℕ → List AddBlockRequest → Option AddBlockRequest
nth n [] = none
nth zero (x ∷ xs) = some x
nth (suc n) (x ∷ xs) = nth n xs

-- The block that an identifier of one number names.
unfoldable pub list_fetch : Cid → List AddBlockRequest → Option AddBlockRequest
unfolding nth
list_fetch [] s = none
list_fetch (n ∷ []) s = nth n s
list_fetch (n ∷ m ∷ c) s = none

abbrev pub list_put : AddBlockRequest → List AddBlockRequest → Option (Cid × List AddBlockRequest)
list_put a s = some (length s ∷ [], s ++ a ∷ [])

nth-last : (a : AddBlockRequest) (s : List AddBlockRequest) → nth (length s) (s ++ a ∷ []) ≡ some a
unfolding nth
nth-last a [] = refl
nth-last a (x ∷ s) = nth-last a s

nth-kept :
    (n : ℕ) (a b : AddBlockRequest) (s : List AddBlockRequest)
    → nth n s ≡ some b
    → nth n (s ++ a ∷ []) ≡ some b
unfolding nth
nth-kept n a b [] h = absurd (cc)
nth-kept zero a b (x ∷ s) h = h
nth-kept (suc n) a b (x ∷ s) h = nth-kept n a b s h

pub list_fetch-put :
    (a : AddBlockRequest) (s : List AddBlockRequest) {c : Cid} {s' : List AddBlockRequest}
    → list_put a s ≡ some (c, s')
    → list_fetch c s' ≡ some a
unfolding list_fetch
list_fetch-put a s e =
    let x : list_fetch (length s ∷ []) (s ++ a ∷ []) ≡ some a = nth-last a s in cc

pub list_fetch-kept :
    (a b : AddBlockRequest) (s : List AddBlockRequest) (d : Cid) {c : Cid}
    {s' : List AddBlockRequest}
    → list_put a s ≡ some (c, s')
    → list_fetch d s ≡ some b
    → list_fetch d s' ≡ some b
unfolding list_fetch
list_fetch-kept a b s [] e h = absurd (cc)
list_fetch-kept a b s (n ∷ []) e h =
    let x : list_fetch (n ∷ []) (s ++ a ∷ []) ≡ some b = nth-kept n a b s h in cc
list_fetch-kept a b s (n ∷ m ∷ c) e h = absurd (cc)

pub list_put-defined :
    (a : AddBlockRequest) (s : List AddBlockRequest) {c : Cid} {s' : List AddBlockRequest}
    → list_put a s ≡ some (c, s')
    → c ≢ undef
list_put-defined a s e d = cc

-- Requests in the order in which they were stored, each under its number: an instance in which the
-- code runs.
abbrev pub list_store : BlockStore
list_store = record {
  Store = List AddBlockRequest;
  put = list_put;
  fetch = list_fetch;
  fetch-put = list_fetch-put;
  fetch-put_kept = list_fetch-kept;
  put-defined = list_put-defined;
}
