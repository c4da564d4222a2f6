-- ===== src/Examples/Tokens.antt =====
-- The token ledger and the transactions on concrete trees.
use tupelo.Prelude.{◌<◌, ◌≤◌, none, some, List, [], ◌∷◌, ◌++◌, ◌≡◌, refl, subst, arith, length}
use tupelo.GoString.{bytes}
use tupelo.GoString.Split.{join}
use tupelo.External.Dag.{Value}
use tupelo.External.Dag.Memory.{path_eq_inst, Memory, written}
use tupelo.External.Dag.Memory.Laws.{memory_dag}
use tupelo.Tokens.{TokenSend, TokenReceive, TokenMonetaryPolicy}
use tupelo.Tokens.Path.{decode_path, decode_path-join}
use tupelo.Tokens.Name.{
  TokenName, token_name_string, token_name_from_string, token_name_from_string-string,
}
use tupelo.Tokens.Ledger.{establish_token, mint_token, balance, receive_token}
use tupelo.Tokens.Ledger.Refinement.{Writes, Represents, Agree, path_of}
use tupelo.Tokens.Ledger.Refinement.Establish.{
  establish_token-Represents, receive_token-establishes,
}
use tupelo.Tokens.Ledger.Operations.{
  Operation, minting, sending, receiving, run, run_tree, run_tree-refines,
}
use tupelo.Tokens.Ledger.Balance.{establish-IsBalanced, establish-within_maximum}
use tupelo.Tokens.Account.{Account, new_account, receive}
use tupelo.Tokens.Account.Conservation.{IsBalanced, total_minted}
use tupelo.Tokens.Account.Maximum.{mint_token-wraps, IsWithin}
use tupelo.Outcome.{returns}
use tupelo.GoMap.{lookup}

abbrev pub coin : TokenName
coin = record { chain_tree_did = bytes "did:tupelo:a"; local_name = bytes "coin" }

abbrev capped : TokenMonetaryPolicy
capped = record { maximum = 100 }

abbrev pub no_tokens : Memory
no_tokens = record { entries = []; nodes = [] }

-- The tree with a new token in it.
abbrev new_coin : Memory
new_coin = written (path_of coin) memory_dag.empty_token no_tokens

memory_writes : Writes memory_dag
memory_writes = record {
  sets_field = λ w p k v t {b} h. (written (p ++ k ∷ []) v t, refl);
  creates = λ v t. (length t.nodes ∷ [], record t { nodes = t.nodes ++ v ∷ [] }, refl);
}

abbrev with_coin : Memory
with_coin =
    written (path_of coin ++ bytes "monetaryPolicy" ∷ []) (memory_dag.encode_policy capped) (
      written (path_of coin ++ bytes "balance" ∷ []) (Value.number 0)
        (written (path_of coin) memory_dag.empty_token no_tokens))

established : establish_token memory_dag coin capped no_tokens ≡ returns with_coin
unfolding establish_token tupelo.Tokens.Ledger.create_token tupelo.Tokens.Ledger.token_path
    decode_path tupelo.GoString.Split.trim_byte tupelo.GoString.Split.split
established = refl

with_coin-Represents : Represents memory_dag coin with_coin (new_account (some capped))
with_coin-Represents =
    let (t, e, r) =
      establish_token-Represents memory_dag coin memory_writes capped no_tokens new_coin refl in
    let x = established in
    let f : t ≡ with_coin = cc in
    subst (λ u. Represents memory_dag coin u (new_account (some capped))) f r

abbrev pub payment : TokenSend
payment = record { id = bytes "p"; amount = 5; destination = bytes "did:tupelo:b" }

abbrev income : TokenReceive
income = record { send_token_transaction_id = bytes "q"; amount = 7 }

-- The second payment is more than what is left, and the second receive is the first one again.
abbrev history : List Operation
history = minting 8 ∷ sending payment ∷ sending payment ∷ receiving income ∷ receiving income ∷ []

run_tree-refines_example :
    Represents memory_dag coin
      (run_tree memory_dag coin history with_coin)
      (run history (new_account (some capped)))
run_tree-refines_example =
    run_tree-refines memory_dag coin memory_writes history with_coin (new_account (some capped))
      with_coin-Represents

history-run : run history (new_account (some capped)) ≡ record {
  balance = 10;
  policy = some capped;
  mints = record { amount = 8 } ∷ [];
  sends = payment ∷ [];
  receives = income ∷ [];
}
unfolding run
history-run = refl

establish-IsBalanced_example :
    (t' : Memory) × (a : Account) × (establish_token memory_dag coin capped no_tokens ≡ returns t')
    × Represents memory_dag coin (run_tree memory_dag coin history t') a
    × (balance memory_dag coin (run_tree memory_dag coin history t') ≡ returns a.balance)
    × IsBalanced a
establish-IsBalanced_example =
    establish-IsBalanced memory_dag coin memory_writes capped history no_tokens new_coin refl

establish-within_maximum_example :
    (t' : Memory) × (a : Account) × (establish_token memory_dag coin capped no_tokens ≡ returns t')
    × Represents memory_dag coin (run_tree memory_dag coin history t') a
    × (total_minted a.mints ≤ 100)
establish-within_maximum_example =
    establish-within_maximum memory_dag coin memory_writes capped history no_tokens new_coin refl
      (omega arith) (omega arith, (tt, (tt, (tt, (tt, tt)))))

history-Represents :
    Represents memory_dag coin
      (run_tree memory_dag coin history with_coin)
      (run history (new_account (some capped)))
history-Represents =
    run_tree-refines memory_dag coin memory_writes history with_coin (new_account (some capped))
      with_coin-Represents

abbrev spent : Account
spent = run history (new_account (some capped))

spent-IsWithin : IsWithin capped spent
unfolding run
spent-IsWithin = record { has_policy = refl; within = omega arith }

total_spent : total_minted spent.mints ≡ 8
unfolding run
total_spent = refl

mint_token-wraps_example :
    (t' : Memory) × (b : Account) × (mint_token memory_dag coin 18446744073709551610
        (run_tree memory_dag coin history with_coin)
      ≡ returns t')
    × Represents memory_dag coin t' b
    × (100 < total_minted b.mints)
mint_token-wraps_example =
    mint_token-wraps memory_dag coin memory_writes capped 18446744073709551610
      (run_tree memory_dag coin history with_coin) spent (omega arith) spent-IsWithin
      history-Represents (omega (arith, total_spent)) (omega (arith, total_spent))

receive_token-establishes_example :
    Agree memory_dag coin
      (receive_token memory_dag coin (bytes "q") 7 no_tokens)
      (receive income (new_account none))
unfolding tupelo.GoMap.lookup
receive_token-establishes_example =
    receive_token-establishes memory_dag coin memory_writes income no_tokens new_coin (path_of coin)
      refl refl

decode_path-join_example :
    decode_path (join 47 (bytes "a" ∷ bytes "bc" ∷ [])) ≡ some (bytes "a" ∷ bytes "bc" ∷ [])
decode_path-join_example =
    decode_path-join (bytes "a") (bytes "bc" ∷ [])
      ((refl, (refl, tt)), ((refl, (refl, (refl, tt))), tt))

token_name_from_string-string_example : token_name_from_string (token_name_string coin) ≡ coin
token_name_from_string-string_example =
    token_name_from_string-string coin (refl, (refl, (refl, (refl, tt))))
