-- ===== src/Store/BodyCache/History.antt =====
-- src/store/body_cache.rs: any sequence of calls on a new cache.
use mathlib.Core.Path.{subst}
use solid_server_rs.Prelude.{
  ℕ, ◌*◌, ◌^◌, ◌≤◌, ◌<◌, ◌≡◌, refl, ◌∙◌, inl, inr, Option, none, some, List, [], ◌∷◌, Str, All,
  length, ltb, arith, Bool-cases,
}
use solid_server_rs.Collections.{get}
use solid_server_rs.Collections.Weights.{length-total-le}
use solid_server_rs.Store.BodyCache.{
  BodyCache, BodyCacheInner, BodyEntry, Inner, off, poisoned, open_inner, found, Key, body_key,
  lookup, lookup_in, store, store_in, charge_of, with_max_entry_bytes, disabled,
}
use solid_server_rs.Store.BodyCache.Evict.{charges}
use solid_server_rs.Store.BodyCache.Budget.{
  IsKept, Keeps, IsValid, lookup_in-IsValid, store_in-IsValid, with_max_entry_bytes-IsValid,
  charge_of-le,
}

pub data Call : Type 0 where
  get_call : Str → Str → Call
  insert_call : Str → Str → List ℕ → Call

unfoldable pub run : BodyCache → List Call → BodyCache
run c [] = c
run c (get_call blob_key etag ∷ calls) = run (lookup c blob_key etag).0 calls
run c (insert_call blob_key etag body ∷ calls) = run (store c blob_key etag body) calls

-- The limits of a cache never change.
abbrev SameLimits : BodyCache → BodyCache → Type 0
SameLimits c d = (d.max_bytes ≡ c.max_bytes) × (d.max_entry_bytes ≡ c.max_entry_bytes)

found-SameLimits :
    (c : BodyCache) (g : BodyCacheInner) (k : Key) (o : Option BodyEntry)
    → SameLimits c (found c g k o).0
found-SameLimits c g k none = (refl, refl)
found-SameLimits c g k (some e) = (refl, refl)

lookup_in-SameLimits : (c : BodyCache) (i : Inner) (k : Key) → SameLimits c (lookup_in c i k).0
unfolding lookup_in
lookup_in-SameLimits c off k = (refl, refl)
lookup_in-SameLimits c poisoned k = (refl, refl)
lookup_in-SameLimits c (open_inner g) k = found-SameLimits c g k (get k g.map)

store_in-SameLimits :
    (c : BodyCache) (i : Inner) (k : Key) (e : BodyEntry) → SameLimits c (store_in c i k e)
unfolding store_in
store_in-SameLimits c off k e = (refl, refl)
store_in-SameLimits c poisoned k e = (refl, refl)
store_in-SameLimits c (open_inner g) k e = (refl, refl)

store-SameLimits :
    (c : BodyCache) (blob_key etag : Str) (body : List ℕ)
    → SameLimits c (store c blob_key etag body)
unfolding store
store-SameLimits c blob_key etag body =
    elim (Bool-cases (ltb c.max_entry_bytes (charge_of blob_key etag body))) [
      | inl y ↦ rw y (refl, refl)
      | inr n ↦ rw n (store_in-SameLimits c c.inner (blob_key, etag) _)
    ]

run-SameLimits : (calls : List Call) (c : BodyCache) → SameLimits c (run c calls)
unfolding run lookup
run-SameLimits [] c = (refl, refl)
run-SameLimits (get_call blob_key etag ∷ calls) c =
    let (a, b) = lookup_in-SameLimits c c.inner (blob_key, etag) in
    let (a', b') = run-SameLimits calls (lookup_in c c.inner (blob_key, etag)).0 in (a' ∙ a, b' ∙ b)
run-SameLimits (insert_call blob_key etag body ∷ calls) c =
    let (a, b) = store-SameLimits c blob_key etag body in
    let (a', b') = run-SameLimits calls (store c blob_key etag body) in (a' ∙ a, b' ∙ b)

limits-new :
    (max_bytes max_entry_bytes : ℕ)
    → (with_max_entry_bytes max_bytes max_entry_bytes).max_bytes ≡ max_bytes
unfolding with_max_entry_bytes disabled
limits-new max_bytes max_entry_bytes = ground arith

module _ (Held : Key → List ℕ → Type 0) where
  -- What is inserted is known to be so.
  abbrev pub IsFetched : Call → Type 0
  IsFetched (get_call blob_key etag) = Unit
  IsFetched (insert_call blob_key etag body) = Held (blob_key, etag) body

  store-IsValid :
      (c : BodyCache) (blob_key etag : Str) (body : List ℕ)
      → Held (blob_key, etag) body
      → IsValid Held c
      → IsValid Held (store c blob_key etag body)
  unfolding store
  store-IsValid c blob_key etag body held v =
      elim (Bool-cases (ltb c.max_entry_bytes (charge_of blob_key etag body))) [
        | inl y ↦ rw y v
        | inr n ↦ rw n (
            store_in-IsValid Held c c.inner (blob_key, etag) _ refl v v.keeps (ground arith)
              (charge_of-le blob_key etag body) held)
      ]

  run-IsValid :
      (calls : List Call) (c : BodyCache)
      → All IsFetched calls
      → IsValid Held c
      → IsValid Held (run c calls)
  unfolding run lookup
  run-IsValid [] c h v = v
  run-IsValid (get_call blob_key etag ∷ calls) c (_, h) v =
      run-IsValid calls _ h (lookup_in-IsValid Held c c.inner (blob_key, etag) refl v v.keeps).0
  run-IsValid (insert_call blob_key etag body ∷ calls) c (held, h) v =
      run-IsValid calls _ h (store-IsValid c blob_key etag body held v)

  pub new-IsValid :
      (max_bytes max_entry_bytes : ℕ) (calls : List Call)
      → max_bytes < 2 ^ 63
      → All IsFetched calls
      → IsValid Held (run (with_max_entry_bytes max_bytes max_entry_bytes) calls)
  new-IsValid max_bytes max_entry_bytes calls small fetched =
      run-IsValid calls (with_max_entry_bytes max_bytes max_entry_bytes) fetched
        (with_max_entry_bytes-IsValid Held max_bytes max_entry_bytes small)

-- After any calls on a new cache that insert under a key and a tag only what the blob of that key holds
-- at that tag, a hit returns just that.
pub hit-content :
    (content : Key → List ℕ) (max_bytes max_entry_bytes : ℕ) (calls : List Call)
    (blob_key etag : Str) (body : List ℕ)
    → max_bytes < 2 ^ 63
    → All (IsFetched (λ k b. b ≡ content k)) calls
    → (lookup (run (with_max_entry_bytes max_bytes max_entry_bytes) calls) blob_key etag).1
      ≡ some body
    → body ≡ content (blob_key, etag)
unfolding lookup
hit-content content max_bytes max_entry_bytes calls blob_key etag body small fetched h =
    let c = run (with_max_entry_bytes max_bytes max_entry_bytes) calls in
    let v = new-IsValid (λ k b. b ≡ content k) max_bytes max_entry_bytes calls small fetched in
    (lookup_in-IsValid (λ k b. b ≡ content k) c c.inner (blob_key, etag) refl v v.keeps).1 body h

nothing_known : (calls : List Call) → All (IsFetched (λ k b. Unit {0})) calls
nothing_known [] = tt
nothing_known (get_call _ _ ∷ calls) = (tt, nothing_known calls)
nothing_known (insert_call _ _ _ ∷ calls) = (tt, nothing_known calls)

-- After any calls on a new cache whose budget is below half of what a `usize` holds, the total is the
-- sum of the charges of the entries and within the budget, and there are at most as many entries as
-- overheads of 64 bytes fit in the budget.
pub run-within_budget :
    (max_bytes max_entry_bytes : ℕ) (calls : List Call) (g : BodyCacheInner)
    → max_bytes < 2 ^ 63
    → (run (with_max_entry_bytes max_bytes max_entry_bytes) calls).inner ≡ open_inner g
    → (g.total_charged ≡ charges g.map)
      × (g.total_charged ≤ max_bytes)
      × (64 * length g.map ≤ max_bytes)
run-within_budget max_bytes max_entry_bytes calls g small h =
    let Known : Key → List ℕ → Type 0 = λ k b. Unit in
    let c = with_max_entry_bytes max_bytes max_entry_bytes in
    let v = new-IsValid Known max_bytes max_entry_bytes calls small (nothing_known calls) in
    let same = (run-SameLimits calls c).0 ∙ limits-new max_bytes max_entry_bytes in
    let kept : IsKept Known (run c calls).max_bytes g =
      subst (Keeps Known (run c calls).max_bytes) h v.keeps in
    let x = kept.exact in
    (
      x.counted,
      omega (arith, kept.fits, same),
      omega (
        arith,
        length-total-le (λ (e : BodyEntry). e.charge) 64 g.map x.heavy,
        x.counted,
        kept.fits,
        same,
      ),
    )
