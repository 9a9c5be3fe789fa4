-- ===== src/Auth/TokenCache/Tracking.antt =====
-- src/auth_cache.rs: calls on the cache, and what its entries stand for.
use mathlib.Core.Option.{some-injective}
use solid_server_rs.Prelude.{
  ℕ, leb, ◌≡◌, refl, inl, inr, false, not, ◌&&◌, Option, none, some, List, [], ◌∷◌, Str, str_eq,
  str_eq_iff, str_eq_self, length, if◌then◌else◌, Bool-cases, ℤ, pos, is_at_most,
}
use solid_server_rs.Collections.{HashMap, get, remove, contains_key, str_key}
use solid_server_rs.Collections.Laws.{get-remove, get-evict_one, get-insert_cases}
use solid_server_rs.Auth.Proof.{Libraries, ProofPolicy}
use solid_server_rs.Auth.TokenCache.{
  VerifiedToken, CacheEntry, Inner, poisoned, open_map, VerifiedTokenCache, next_tick, touch,
  entry_deadline, found, find_in, find, make_room, store_bound, store,
}

-- The calls; of an authentication only the look-up changes the cache.
pub data Call (Content : Type 0) : Type 0 where
  find_call : Str → ℕ → Call Content
  insert_call : Str → VerifiedToken Content → ℕ → Call Content

-- what was last inserted under a digest, and when
abbrev pub Ideal : Type 0 → Type 0
Ideal Content = Str → Option (VerifiedToken Content × ℕ)

-- Of the tokens, only those with a key and an expiry are inserted.
abbrev note_bound :
    {Content : Type 0}
    → Str
    → VerifiedToken Content
    → ℕ
    → Option Str
    → Option ℤ
    → Ideal Content
    → Ideal Content
note_bound key token now none exp ideal = ideal
note_bound key token now (some jkt) none ideal = ideal
note_bound key token now (some jkt) (some exp) ideal =
    λ k. if str_eq key k then some (token, now) else ideal k

module _ {Content : Type 0} (lib : Libraries) where
  unfoldable pub run : VerifiedTokenCache Content → List (Call Content) → VerifiedTokenCache Content
  run c [] = c
  run c (find_call access_token now ∷ calls) = run (find c (lib.sha256 access_token) now).0 calls
  run c (insert_call access_token token now ∷ calls) =
      run (store lib c access_token token now) calls

  unfoldable pub last_inserted : Ideal Content → List (Call Content) → Ideal Content
  last_inserted ideal [] = ideal
  last_inserted ideal (find_call access_token now ∷ calls) = last_inserted ideal calls
  last_inserted ideal (insert_call access_token token now ∷ calls) =
      last_inserted
        (note_bound (lib.sha256 access_token) token now token.cnf_jkt token.expiry ideal) calls

module _ {Content : Type 0} where
  -- An entry is what was last inserted, with the key and the expiry of its token.
  abbrev pub Stands : Ideal Content → Str → CacheEntry Content → Type 0
  Stands ideal k e =
      (ideal k ≡ some (e.token, e.inserted_at))
      × (e.token.cnf_jkt ≡ some e.cnf_jkt)
      × (e.token.expiry ≡ some e.exp)

  abbrev pub Agrees : Ideal Content → Inner Content → Type 0
  Agrees ideal poisoned = Unit
  Agrees ideal (open_map m) =
      (k : Str) (e : CacheEntry Content) → get k m ≡ some e → Stands ideal k e

  -- and the limits are as they were set
  pub record Tracks (ideal : Ideal Content) (policy : ProofPolicy) (ttl : ℕ)
      (c : VerifiedTokenCache Content) : Type 0 where
    pub agrees : Agrees ideal c.inner
    pub same_policy : c.policy ≡ policy
    pub same_ttl : c.max_entry_ttl_secs ≡ ttl

  get-make_room :
      (capacity : ℕ) (key k : Str) (m : HashMap Str (CacheEntry Content)) (e : CacheEntry Content)
      → get k (make_room capacity key m) ≡ some e
      → get k m ≡ some e
  get-make_room capacity key k m e h =
      elim (Bool-cases (not (contains_key key m) && leb capacity (length m))) [
        | inl full ↦ get-evict_one (λ e. e.last_access) k m e (rw full at h)
        | inr room ↦ rw room at h
      ]

  get-remove-some :
      (key k : Str) (m : HashMap Str (CacheEntry Content)) (e : CacheEntry Content)
      → get k (remove key m) ≡ some e
      → get k m ≡ some e
  get-remove-some key k m e h = elim (Bool-cases (str_eq key k)) [
    | inl y ↦ absurd (cc (rw (get-remove key k m, y) at h))
    | inr n ↦ rw (get-remove key k m, n) at h
  ]

  -- A look-up keeps the map as it stands; what it finds stands there and is live.
  found-Tracks :
      (ideal : Ideal Content) (policy : ProofPolicy) (ttl : ℕ) (c : VerifiedTokenCache Content)
      (m : HashMap Str (CacheEntry Content)) (key : Str) (now : ℕ) (o : Option (CacheEntry Content))
      → Tracks ideal policy ttl c
      → ((k : Str) (e : CacheEntry Content) → get k m ≡ some e → Stands ideal k e)
      → get key m ≡ o
      → Tracks ideal policy ttl (found c m key now o).0
        × ((e : CacheEntry Content)
            → (found c m key now o).1 ≡ some e
            → Stands ideal key e × (is_at_most (entry_deadline c e) (pos now) ≡ false))
  unfolding entry_deadline
  found-Tracks ideal policy ttl c m key now none t a h = (t, λ e f. absurd (cc f))
  found-Tracks ideal policy ttl c m key now (some e) t a h =
      elim (Bool-cases (is_at_most (entry_deadline c e) (pos now))) [
        | inl y ↦ rw y (
          record {
            agrees = λ k f g. a k f (get-remove-some key k m f g);
            same_policy = t.same_policy;
            same_ttl = t.same_ttl;
          },
          λ f g. absurd (cc g),
        )
        | inr n ↦ rw n (
          record {
            agrees = λ k f g. elim (get-insert_cases key k (touch (next_tick c) e) f m g) [
              | inl (here, new) ↦ rw (← here) (rw (← new) (a key e h))
              | inr (_, old) ↦ a k f old
            ];
            same_policy = t.same_policy;
            same_ttl = t.same_ttl;
          },
          λ f g.
              let same = some-injective (touch (next_tick c) e) f g in rw (← same) (a key e h, n),
        )
      ]

  pub find-Tracks :
      (ideal : Ideal Content) (policy : ProofPolicy) (ttl : ℕ) (c : VerifiedTokenCache Content)
      (i : Inner Content) (key : Str) (now : ℕ)
      → Tracks ideal policy ttl c
      → Agrees ideal i
      → Tracks ideal policy ttl (find_in c i key now).0
        × ((e : CacheEntry Content)
            → (find_in c i key now).1 ≡ some e
            → Stands ideal key e × (is_at_most (entry_deadline c e) (pos now) ≡ false))
  find-Tracks ideal policy ttl c poisoned key now t a = (t, λ e f. absurd (cc f))
  find-Tracks ideal policy ttl c (open_map m) key now t a =
      found-Tracks ideal policy ttl c m key now (get key m) t a refl

  store_bound-Tracks :
      (ideal : Ideal Content) (policy : ProofPolicy) (ttl : ℕ) (c : VerifiedTokenCache Content)
      (i : Inner Content) (key : Str) (token : VerifiedToken Content) (now : ℕ) (jkt : Option Str)
      (exp : Option ℤ)
      → Tracks ideal policy ttl c
      → c.inner ≡ i
      → token.cnf_jkt ≡ jkt
      → token.expiry ≡ exp
      → Agrees ideal i
      → Tracks
          (note_bound key token now jkt exp ideal)
          policy
          ttl
          (store_bound c key token now jkt exp)
  store_bound-Tracks ideal policy ttl c i key token now none exp t same ej ee a = t
  store_bound-Tracks ideal policy ttl c i key token now (some jkt) none t same ej ee a = t
  store_bound-Tracks ideal policy ttl c poisoned key token now (some jkt) (some exp) t same ej ee
        a =
      rw same (record { agrees = tt; same_policy = t.same_policy; same_ttl = t.same_ttl })
  store_bound-Tracks ideal policy ttl c (open_map m) key token now (some jkt) (some exp) t same ej
        ee a =
      let e : CacheEntry Content = record {
        token = token;
        cnf_jkt = jkt;
        exp = exp;
        inserted_at = now;
        last_access = next_tick c;
      } in
      rw same (record {
        agrees = λ k f g. elim (get-insert_cases key k e f (make_room c.capacity key m) g) [
          | inl (here, new) ↦ rw (← here) (rw (← new) (rw (str_eq_self key) refl, ej, ee))
          | inr (other, old) ↦
              let differs : str_eq key k ≡ false = elim (Bool-cases (str_eq key k)) [
                | inl y ↦ absurd (other ((str_eq_iff key k).0 y))
                | inr n ↦ n
              ] in
              let stood = a k f (get-make_room c.capacity key k m f old) in
              (rw differs stood.0, stood.1, stood.2)
        ];
        same_policy = t.same_policy;
        same_ttl = t.same_ttl;
      })

  abbrev nothing : Ideal Content
  nothing k = none

  pub run-Tracks :
      (lib : Libraries) (policy : ProofPolicy) (ttl : ℕ) (calls : List (Call Content))
      (ideal : Ideal Content) (c : VerifiedTokenCache Content)
      → Tracks ideal policy ttl c
      → Tracks (last_inserted lib ideal calls) policy ttl (run lib c calls)
  unfolding run last_inserted find store
  run-Tracks lib policy ttl [] ideal c t = t
  run-Tracks lib policy ttl (find_call access_token now ∷ calls) ideal c t =
      run-Tracks lib policy ttl calls ideal _
        (find-Tracks ideal policy ttl c c.inner (lib.sha256 access_token) now t t.agrees).0
  run-Tracks lib policy ttl (insert_call access_token token now ∷ calls) ideal c t =
      run-Tracks lib policy ttl calls _ _ (
        store_bound-Tracks ideal policy ttl c c.inner (lib.sha256 access_token) token now
          token.cnf_jkt token.expiry t refl refl refl t.agrees)
