-- ===== src/External/Dag/Memory.antt =====
-- A DAG in memory: the value at each path, and the nodes of the store, each under its number. What
-- is written at a path takes the place of what stood below it. An instance in which the code runs.
pub mod Laws
use tupelo.Prelude.{
  ℕ, zero, suc, Option, none, some, List, [], ◌∷◌, ◌++◌, Bool, true, false, ◌&&◌, ◌≡◌, ◌↔◌, ◌≢◌,
  refl, if◌then◌else◌, length, arith, Bool-cases, inl, inr, sym, ap, ◌∙◌,
}
use tupelo.Prelude.Eq.{Eq, ◌==◌, eq_refl, eq_of_test, test_of_ne}
use tupelo.GoString.{Bytes, bytes_eq, bytes_eq_iff}
use tupelo.GoString.Split.{all_but_last, all_but_last-append, last_piece, last_piece-append}
use tupelo.GoMap.{GoMap, lookup, insert}
use tupelo.GoMap.Laws.{lookup-insert_self, lookup-insert_ne}
use tupelo.External.CidLib.{Cid}
use tupelo.External.Dag.{Value, Item, other, nil, number, simple, sequence, mapping, Write}
use tupelo.Tokens.{TokenSend, TokenReceive, TokenMonetaryPolicy, token_balance_label}
use tupelo.Tokens.Path.{TreePath}

abbrev pub path_eq : TreePath → TreePath → Bool
path_eq [] [] = true
path_eq [] (y ∷ ys) = false
path_eq (x ∷ xs) [] = false
path_eq (x ∷ xs) (y ∷ ys) = bytes_eq x y && path_eq xs ys

pub path_eq_iff : (a b : TreePath) → (path_eq a b ≡ true) ↔ (a ≡ b)
path_eq_iff [] [] = ground arith
path_eq_iff [] (y ∷ ys) = ground arith
path_eq_iff (x ∷ xs) [] = ground arith
path_eq_iff (x ∷ xs) (y ∷ ys) = ground (arith, path_eq_iff xs ys, bytes_eq_iff x y)

instance abbrev pub path_eq_inst : Eq TreePath
path_eq_inst = record { equal = path_eq; equal_iff = path_eq_iff }

pub record Memory : Type 0 where
  pub entries : GoMap TreePath Value
  pub nodes : List Value

-- What stands one step below a path is removed.
unfoldable pub remove_below : TreePath → GoMap TreePath Value → GoMap TreePath Value
remove_below q [] = []
remove_below q ((x, v) ∷ m) =
    let rest = remove_below q m in if all_but_last x == q then rest else (x, v) ∷ rest

abbrev pub written : TreePath → Value → Memory → Memory
written q v t = record t { entries = insert q v (remove_below q t.entries) }

abbrev pub memory_set : Write → TreePath → Value → Memory → Option Memory
memory_set w q v t = some (written q v t)

abbrev pub resolved : TreePath → Option Value → Option (Value × TreePath)
resolved p none = some (nil, p)
resolved p (some v) = some (v, [])

abbrev pub memory_resolve : TreePath → Memory → Option (Value × TreePath)
memory_resolve p t = resolved p (lookup p t.entries)

abbrev pub balance_of : Option Value → ℕ
balance_of (some (number n)) = n
balance_of (some nil) = 0
balance_of (some (simple b)) = 0
balance_of (some (sequence xs)) = 0
balance_of (some (mapping m)) = 0
balance_of none = 0

-- A token is a simple value, with its balance one step below.
abbrev pub token_of : Option Value → Option Value → Option ℕ
token_of (some (simple b)) o = some (balance_of o)
token_of (some (number n)) o = none
token_of (some nil) o = none
token_of (some (sequence xs)) o = none
token_of (some (mapping m)) o = none
token_of none o = none

abbrev pub memory_token : TreePath → Memory → Option ℕ
memory_token p t = token_of (lookup p t.entries) (lookup (p ++ token_balance_label ∷ []) t.entries)

abbrev pub policy_of : Option Value → Option TokenMonetaryPolicy
policy_of (some (number n)) = some (record { maximum = n })
policy_of (some nil) = none
policy_of (some (simple b)) = none
policy_of (some (sequence xs)) = none
policy_of (some (mapping m)) = none
policy_of none = none

abbrev pub memory_policy : TreePath → Memory → Option TokenMonetaryPolicy
memory_policy p t = policy_of (lookup p t.entries)

unfoldable pub nth_node : ℕ → List Value → Option Value
nth_node n [] = none
nth_node zero (x ∷ xs) = some x
nth_node (suc n) (x ∷ xs) = nth_node n xs

unfoldable pub memory_get : Cid → Memory → Option Value
unfolding nth_node
memory_get [] t = none
memory_get (n ∷ []) t = nth_node n t.nodes
memory_get (n ∷ m ∷ c) t = none

abbrev pub memory_create : Value → Memory → Option (Cid × Memory)
memory_create v t = some (length t.nodes ∷ [], record t { nodes = t.nodes ++ v ∷ [] })

abbrev pub decode_receive_items : List Item → Option TokenReceive
decode_receive_items (other id ∷ other (n ∷ []) ∷ []) =
    some (record { send_token_transaction_id = id; amount = n })
decode_receive_items (other (n ∷ []) ∷ []) =
    some (record { send_token_transaction_id = []; amount = n })
decode_receive_items _ = none

abbrev pub decode_send_items : List Item → Option TokenSend
decode_send_items (other id ∷ other (n ∷ []) ∷ other to ∷ []) =
    some (record { id = id; amount = n; destination = to })
decode_send_items _ = none

lookup-remove_below :
    (q x : TreePath) (m : GoMap TreePath Value)
    → (all_but_last x == q) ≡ false
    → lookup x (remove_below q m) ≡ lookup x m
unfolding lookup remove_below
lookup-remove_below q x [] h = refl
lookup-remove_below q x ((y, v) ∷ m) h =
    let i = lookup-remove_below q x m h in
    elim (Bool-cases (all_but_last y == q)) [
      | inl c ↦ elim (Bool-cases (y == x)) [
        | inl e ↦ let p = eq_of_test y x e in absurd (cc)
        | inr e ↦ rw (c, e, i)
      ]
      | inr c ↦ elim (Bool-cases (y == x)) [ inl e ↦ rw (c, e) | inr e ↦ rw (c, e, i) ]
    ]

lookup-removed :
    (q x : TreePath) (m : GoMap TreePath Value)
    → (all_but_last x == q) ≡ true
    → lookup x (remove_below q m) ≡ none
unfolding lookup remove_below
lookup-removed q x [] h = refl
lookup-removed q x ((y, v) ∷ m) h =
    let i = lookup-removed q x m h in
    elim (Bool-cases (all_but_last y == q)) [
      | inl c ↦ rw (c, i)
      | inr c ↦ elim (Bool-cases (y == x)) [
        | inl e ↦ let p = eq_of_test y x e in absurd (cc)
        | inr e ↦ rw (c, e, i)
      ]
    ]

pub lookup-written_self :
    (q : TreePath) (v : Value) (t : Memory) → lookup q (written q v t).entries ≡ some v
lookup-written_self q v t = lookup-insert_self q v (remove_below q t.entries)

pub lookup-written_other :
    (q x : TreePath) (v : Value) (t : Memory)
    → q ≢ x
    → all_but_last x ≢ q
    → lookup x (written q v t).entries ≡ lookup x t.entries
lookup-written_other q x v t d e =
    lookup-insert_ne q x v (remove_below q t.entries) d
    ∙ lookup-remove_below q x t.entries (test_of_ne (all_but_last x) q e)

abbrev tail_of : TreePath → TreePath
tail_of [] = []
tail_of (x ∷ xs) = xs

last_injective : (p : TreePath) (k j : Bytes) → p ++ k ∷ [] ≡ p ++ j ∷ [] → k ≡ j
last_injective p k j e = sym (last_piece-append p k) ∙ ap last_piece e ∙ last_piece-append p j

-- Nothing is its own longer path less two components.
shorter : (p : TreePath) (k : Bytes) → p ++ k ∷ [] ≢ all_but_last p
unfolding all_but_last
shorter [] k e = absurd (cc)
shorter (x ∷ []) k e = absurd (cc)
shorter (x ∷ y ∷ p) k e = shorter (y ∷ p) k (ap tail_of e)

last_differs : (p : TreePath) (k : Bytes) → p ++ k ∷ [] ≢ p
last_differs [] k e = absurd (cc)
last_differs (x ∷ p) k e = last_differs p k (ap tail_of e)

pub lookup-written_below :
    (p : TreePath) (k : Bytes) (v : Value) (t : Memory)
    → lookup (p ++ k ∷ []) (written p v t).entries ≡ none
lookup-written_below p k v t =
    lookup-insert_ne p (p ++ k ∷ []) v (remove_below p t.entries) (λ e. last_differs p k (sym e))
    ∙ lookup-removed p (p ++ k ∷ []) t.entries
        (ap (λ x. x == p) (all_but_last-append p k) ∙ eq_refl p)

pub lookup-written_child :
    (p : TreePath) (k j : Bytes) (v : Value) (t : Memory)
    → k ≢ j
    → lookup (p ++ j ∷ []) (written (p ++ k ∷ []) v t).entries ≡ lookup (p ++ j ∷ []) t.entries
lookup-written_child p k j v t d =
    lookup-written_other (p ++ k ∷ []) (p ++ j ∷ []) v t (λ e. d (last_injective p k j e))
      (λ e. last_differs p k (sym e ∙ all_but_last-append p j))

pub lookup-written_parent :
    (p : TreePath) (k : Bytes) (v : Value) (t : Memory)
    → lookup p (written (p ++ k ∷ []) v t).entries ≡ lookup p t.entries
lookup-written_parent p k v t =
    lookup-written_other (p ++ k ∷ []) p v t (last_differs p k) (λ e. shorter p k (sym e))

pub nth_node-last : (v : Value) (s : List Value) → nth_node (length s) (s ++ v ∷ []) ≡ some v
unfolding nth_node
nth_node-last v [] = refl
nth_node-last v (x ∷ s) = nth_node-last v s

pub nth_node-kept :
    (n : ℕ) (v u : Value) (s : List Value)
    → nth_node n s ≡ some u
    → nth_node n (s ++ v ∷ []) ≡ some u
unfolding nth_node
nth_node-kept n v u [] h = absurd (cc)
nth_node-kept zero v u (x ∷ s) h = h
nth_node-kept (suc n) v u (x ∷ s) h = nth_node-kept n v u s h
