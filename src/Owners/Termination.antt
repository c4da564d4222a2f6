-- ===== src/Owners/Termination.antt =====
-- The recursion over the owners of owners ends, as each chain tree is visited once.
use tupelo.Prelude.{
  ℕ, zero, suc, ◌≤◌, ◌<◌, Option, none, some, List, [], ◌∷◌, ◌++◌, In, true, false, if◌then◌else◌,
  length, ◌≡◌, ◌≢◌, refl, inl, inr, arith, Bool-cases, subst, sym, ap,
}
use tupelo.GoString.{Bytes, bytes}
use tupelo.GoString.Split.{has_prefix}
use tupelo.External.Grafts.{
  Grafts, Inner, inner_dag, inner_text, inner_unknown, Auth, auth_dag, auth_text, auth_list,
  auth_unknown, Auths, auths_list, auths_dag, auths_nil, auths_unknown,
}
use tupelo.Tokens.Path.{TreePath}
use tupelo.Tokens.Name.{did_to_addr}
use tupelo.Owners.{
  Addrs, OwnerError, out_of_fuel, not_graftable, no_did, loop_detected, unresolved, next_path,
  owners_of_list, owners_of_auth, owners_of_auths, owners_in, handle_dag, resolve_level,
  resolve_owners_recursively, resolve_owners,
}
use tupelo.Outcome.{Outcome, panics, fails, returns, ◌>>=◌, or_fail, some_returned}

-- The result is owners, or an error that the code gives.
abbrev pub Ends : Addrs → Type 0
Ends x = x ≢ fails out_of_fuel

Ends-bind :
    {A : Type 0} (x : Outcome OwnerError A) (f : A → Addrs)
    → x ≢ fails out_of_fuel
    → ((a : A) → x ≡ returns a → Ends (f a))
    → Ends (x >>= f)
Ends-bind panics f h k e = absurd (cc)
Ends-bind (fails g) f h k e = let i : g ≡ out_of_fuel = cc in h (ap (λ z. fails z) i)
Ends-bind (returns a) f h k e = k a refl e

Ends-returns : (a : List Bytes) → Ends (returns a)
Ends-returns a e = absurd (cc)

or_fail-ends :
    {A : Type 0} (e : OwnerError) (o : Option A) → e ≢ out_of_fuel → or_fail e o ≢ fails out_of_fuel
or_fail-ends e none h i = let j : e ≡ out_of_fuel = cc in h j
or_fail-ends e (some a) h i = absurd (cc)

module _ {T : Type 0} (handle : T → Addrs) (ends : (t : T) → Ends (handle t)) where
  Ends-owners_of_list : (xs : List (Inner T)) → Ends (owners_of_list handle xs)
  unfolding owners_of_list
  Ends-owners_of_list [] = Ends-returns []
  Ends-owners_of_list (inner_unknown ∷ xs) = λ e. absurd (cc)
  Ends-owners_of_list (inner_text a ∷ xs) =
      Ends-bind (owners_of_list handle xs) (λ os. returns (a ∷ os)) (Ends-owners_of_list xs)
        (λ os h. Ends-returns (a ∷ os))
  Ends-owners_of_list (inner_dag t ∷ xs) =
      Ends-bind (handle t) (λ n. owners_of_list handle xs >>= (λ os. returns (n ++ os))) (ends t)
        (λ n h.
          Ends-bind (owners_of_list handle xs) (λ os. returns (n ++ os)) (Ends-owners_of_list xs)
            (λ os i. Ends-returns (n ++ os)))

  Ends-owners_of_auth : (a : Auth T) → Ends (owners_of_auth handle a)
  unfolding owners_of_auth
  Ends-owners_of_auth (auth_dag t) = ends t
  Ends-owners_of_auth (auth_text b) = elim (Bool-cases (has_prefix b (bytes "did:tupelo:"))) [
    | inl t ↦ rw t (Ends-returns [])
    | inr t ↦ rw t (Ends-returns (b ∷ []))
  ]
  Ends-owners_of_auth (auth_list xs) = Ends-owners_of_list xs
  Ends-owners_of_auth auth_unknown = λ e. absurd (cc)

  Ends-owners_of_auths : (auths : List (Auth T)) → Ends (owners_of_auths handle auths)
  unfolding owners_of_auths
  Ends-owners_of_auths [] = Ends-returns []
  Ends-owners_of_auths (a ∷ auths) =
      Ends-bind (owners_of_auth handle a)
        (λ n. owners_of_auths handle auths >>= (λ os. returns (n ++ os))) (Ends-owners_of_auth a)
        (λ n h.
          Ends-bind (owners_of_auths handle auths) (λ os. returns (n ++ os))
            (Ends-owners_of_auths auths) (λ os i. Ends-returns (n ++ os)))

  Ends-owners_in : (did : Bytes) (auths : Auths T) → Ends (owners_in handle did auths)
  unfolding owners_in
  Ends-owners_in did (auths_list auths) = Ends-owners_of_auths auths
  Ends-owners_in did (auths_dag t) = ends t
  Ends-owners_in did auths_nil = Ends-returns (did_to_addr did ∷ [])
  Ends-owners_in did auths_unknown = λ e. absurd (cc)

module _ (gr : Grafts) where
  open gr use {Tree, Graftable, graft, origin_did, global_resolve, contains_prefix}

  -- How many of the chain trees are not yet visited.
  unvisited : List Bytes → List TreePath → ℕ
  unvisited [] seen = 0
  unvisited (d ∷ ds) seen =
      let rest = unvisited ds seen in
      if contains_prefix seen (d ∷ next_path) then rest else suc rest

  unvisited-append :
      (ds : List Bytes) (seen : List TreePath) (q : TreePath)
      → unvisited ds (seen ++ q ∷ []) ≤ unvisited ds seen
  unfolding unvisited
  unvisited-append [] seen q = omega arith
  unvisited-append (d ∷ ds) seen q =
      let i = unvisited-append ds seen q in
      let k = gr.contains-kept seen (d ∷ next_path) q in ground arith

  unvisited-visit :
      (d : Bytes) (ds : List Bytes) (seen : List TreePath)
      → In d ds
      → contains_prefix seen (d ∷ next_path) ≡ false
      → unvisited ds (seen ++ (d ∷ next_path) ∷ []) < unvisited ds seen
  unfolding unvisited
  unvisited-visit d [] seen i h = elim i [ ]
  unvisited-visit d (x ∷ ds) seen (inl e) h =
      let q = d ∷ next_path in
      let t : contains_prefix (seen ++ q ∷ []) (x ∷ next_path) ≡ true =
        subst (λ y. contains_prefix (seen ++ q ∷ []) (y ∷ next_path) ≡ true) (sym e)
          (gr.contains-last seen q) in
      let u : contains_prefix seen (x ∷ next_path) ≡ false =
        subst (λ y. contains_prefix seen (y ∷ next_path) ≡ false) (sym e) h in
      let i = unvisited-append ds seen q in rw (t, u) (omega arith)
  unvisited-visit d (x ∷ ds) seen (inr i) h =
      let j = unvisited-visit d ds seen i h in
      let k = gr.contains-kept seen (x ∷ next_path) (d ∷ next_path) in ground arith

  unvisited-length : (ds : List Bytes) (seen : List TreePath) → unvisited ds seen ≤ length ds
  unfolding unvisited
  unvisited-length [] seen = omega arith
  unvisited-length (d ∷ ds) seen = let i = unvisited-length ds seen in ground arith

  visit : ℕ → List TreePath → Graftable → Bytes → Addrs
  visit fuel seen g d =
      if contains_prefix seen (d ∷ next_path)
      then fails loop_detected
      else or_fail unresolved (global_resolve next_path g)
        >>= owners_in
            (handle_dag gr (resolve_owners_recursively gr fuel) (seen ++ (d ∷ next_path) ∷ [])) d

  handle_dag-Ends :
      (resolve : List TreePath → Graftable → Addrs) (seen : List TreePath)
      → ((g : Graftable) → Ends (resolve seen g))
      → (t : Tree) → Ends (handle_dag gr resolve seen t)
  unfolding handle_dag
  handle_dag-Ends resolve seen h t =
      Ends-bind (or_fail not_graftable (graft t)) (resolve seen)
        (or_fail-ends not_graftable (graft t) (λ e. absurd (cc))) (λ g e. h g)

  visit-Ends :
      (ds : List Bytes) (fuel : ℕ) (seen : List TreePath) (g : Graftable) (d : Bytes)
      → In d ds
      → unvisited ds seen < suc fuel
      → ((seen' : List TreePath) (g' : Graftable)
          → unvisited ds seen' < fuel
          → Ends (resolve_owners_recursively gr fuel seen' g'))
      → Ends (visit fuel seen g d)
  unfolding visit
  visit-Ends ds fuel seen g d i l rec =
      let p = d ∷ next_path in
      elim (Bool-cases (contains_prefix seen p)) [
        | inl t ↦ rw t (λ e. absurd (cc))
        | inr t ↦
            let v = unvisited-visit d ds seen i t in
            let seen' = seen ++ p ∷ [] in
            let handle = handle_dag gr (resolve_owners_recursively gr fuel) seen' in
            rw t (
              Ends-bind (or_fail unresolved (global_resolve next_path g)) (owners_in handle d)
                (or_fail-ends unresolved (global_resolve next_path g) (λ e. absurd (cc)))
                (λ auths e.
                  Ends-owners_in handle
                    (handle_dag-Ends (resolve_owners_recursively gr fuel) seen'
                      (λ g'. rec seen' g' (omega arith)))
                    d auths))
      ]

  resolve_owners_recursively-Ends :
      (ds : List Bytes)
      → ((g : Graftable) (d : Bytes) → origin_did g ≡ some d → In d ds)
      → (fuel : ℕ) (seen : List TreePath) (g : Graftable) → unvisited ds seen < fuel
      → Ends (resolve_owners_recursively gr fuel seen g)
  unfolding resolve_owners_recursively resolve_level visit
  resolve_owners_recursively-Ends ds known zero seen g l = absurd (omega arith)
  resolve_owners_recursively-Ends ds known (suc fuel) seen g l =
      Ends-bind (or_fail no_did (origin_did g)) (visit fuel seen g)
        (or_fail-ends no_did (origin_did g) (λ e. absurd (cc)))
        (λ d h.
          visit-Ends ds fuel seen g d (known g d (some_returned no_did (origin_did g) h)) l
            (λ seen' g' l'. resolve_owners_recursively-Ends ds known fuel seen' g' l'))

  -- Where the chain trees are finitely many, fuel for one more than their DIDs is enough:
  -- ResolveOwners ends with owners or with an error that the code gives, even where the owners lead
  -- in a circle.
  pub resolve_owners-Ends :
      (ds : List Bytes)
      → ((g : Graftable) (d : Bytes) → origin_did g ≡ some d → In d ds)
      → (fuel : ℕ) (g : Graftable) → length ds < fuel
      → Ends (resolve_owners gr fuel g)
  resolve_owners-Ends ds known fuel g l =
      let i = unvisited-length ds [] in
      resolve_owners_recursively-Ends ds known fuel [] g (omega arith)
