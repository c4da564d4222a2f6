-- ===== src/External/Lru.antt =====
-- github.com/hashicorp/golang-lru: a bounded cache. `peek` reads, `get` is the cache after a `Get`
-- (which may move the entry), and an `add` may evict any other entry.
use tupelo.Prelude.{Option, none, some, ◌≡◌, ◌≢◌, ◌⊎◌, inr, refl, []}
use tupelo.Prelude.Eq.{Eq}
use tupelo.GoMap.{GoMap, lookup, insert, delete}
use tupelo.GoMap.Laws.{
  lookup-insert_self, lookup-insert_ne, lookup-delete_self, lookup-delete_ne, lookup-empty,
}

pub record Lru (K V : Type 0) : Type 1 where
  pub Cache : Type 0
  pub empty : Cache
  pub peek : K → Cache → Option V
  pub get : K → Cache → Cache
  pub add : K → V → Cache → Cache
  pub remove : K → Cache → Cache
  pub peek-empty : (k : K) → peek k empty ≡ none
  pub peek-get : (k j : K) (c : Cache) → peek j (get k c) ≡ peek j c
  pub peek-add_self : (k : K) (v : V) (c : Cache) → peek k (add k v c) ≡ some v
  pub peek-add_ne :
      (k j : K) (v : V) (c : Cache)
      → k ≢ j
      → (peek j (add k v c) ≡ none) ⊎ (peek j (add k v c) ≡ peek j c)
  pub peek-remove_self : (k : K) (c : Cache) → peek k (remove k c) ≡ none
  pub peek-remove_ne : (k j : K) (c : Cache) → k ≢ j → peek j (remove k c) ≡ peek j c

-- A cache that never evicts: an instance in which the code runs.
abbrev pub unbounded : (K V : Type 0) ⦃e : Eq K⦄ → Lru K V
unbounded K V ⦃e⦄ = record {
  Cache = GoMap K V;
  empty = [];
  peek = lookup;
  get = λ k c. c;
  add = insert;
  remove = delete;
  peek-empty = lookup-empty;
  peek-get = λ k j c. refl;
  peek-add_self = lookup-insert_self;
  peek-add_ne = λ k j v c h. inr (lookup-insert_ne k j v c h);
  peek-remove_self = lookup-delete_self;
  peek-remove_ne = lookup-delete_ne;
}
