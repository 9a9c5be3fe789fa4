-- ===== src/Auth/TokenCache.antt =====
-- src/auth_cache.rs: the cache of verified tokens. The seconds of the clock are natural numbers; the
-- expiry of a token is an integer. A lock that a panic has poisoned is `poisoned`.
pub mod Tracking
pub mod History
mod Tests
use solid_server_rs.Prelude.{
  ℕ, ◌+◌, ◌-◌, ◌%◌, ◌^◌, min, max, ltb, leb, Bool, true, false, not, ◌&&◌, Option, none, some, List,
  [], Str, length, if◌then◌else◌, ℤ, pos, negsuc, is_at_most,
}
use solid_server_rs.Collections.{HashMap, get, remove, insert, contains_key, evict_one, str_key}
use solid_server_rs.Auth.Proof.{Libraries, ProofPolicy, VerifyError, MarkResult, verify_fresh_proof}

pub record VerifiedToken (Content : Type 0) : Type 0 where
  pub cnf_jkt : Option Str
  pub expiry : Option ℤ
  pub content : Content

pub record CacheEntry (Content : Type 0) : Type 0 where
  pub token : VerifiedToken Content
  pub cnf_jkt : Str
  pub exp : ℤ
  pub inserted_at : ℕ
  pub last_access : ℕ

pub data Inner (Content : Type 0) : Type 0 where
  poisoned : Inner Content
  open_map : HashMap Str (CacheEntry Content) → Inner Content

pub record VerifiedTokenCache (Content : Type 0) : Type 0 where
  pub inner : Inner Content
  pub capacity : ℕ
  pub clock : ℕ
  pub policy : ProofPolicy
  pub max_entry_ttl_secs : ℕ

pub data CacheDecision (Content : Type 0) : Type 0 where
  verified : VerifiedToken Content → CacheDecision Content
  miss : CacheDecision Content
  reject : VerifyError → CacheDecision Content

-- `min` on `i64`
abbrev pub min_ℤ : ℤ → ℤ → ℤ
min_ℤ a b = if is_at_most a b then a else b

abbrev pub default_max_entry_ttl_secs : ℕ
default_max_entry_ttl_secs = 300

module _ {Content : Type 0} where
  unfoldable pub with_max_entry_ttl : ℕ → ProofPolicy → ℕ → VerifiedTokenCache Content
  with_max_entry_ttl capacity policy max_entry_ttl_secs = record {
    inner = open_map [];
    capacity = max capacity 1;
    clock = 0;
    policy = policy;
    max_entry_ttl_secs = max max_entry_ttl_secs 1;
  }

  unfoldable pub new : ℕ → ProofPolicy → VerifiedTokenCache Content
  unfolding with_max_entry_ttl
  new capacity policy = with_max_entry_ttl capacity policy default_max_entry_ttl_secs

  -- `clock.fetch_add(1) + 1`: the counter wraps
  abbrev pub next_tick : VerifiedTokenCache Content → ℕ
  next_tick c = (c.clock + 1) % 2 ^ 64

  abbrev pub touch : ℕ → CacheEntry Content → CacheEntry Content
  touch tick e = record e { last_access = tick }

  unfoldable pub entry_deadline : VerifiedTokenCache Content → CacheEntry Content → ℤ
  entry_deadline c e = min_ℤ (pos (min (e.inserted_at + c.max_entry_ttl_secs) (2 ^ 63 - 1))) e.exp

  -- the look-up of `authenticate` under the lock, on what the map holds
  abbrev pub found :
      VerifiedTokenCache Content
      → HashMap Str (CacheEntry Content)
      → Str
      → ℕ
      → Option (CacheEntry Content)
      → VerifiedTokenCache Content × Option (CacheEntry Content)
  found c m key now none = (c, none)
  found c m key now (some e) =
      if is_at_most (entry_deadline c e) (pos now)
      then (record c { inner = open_map (remove key m) }, none)
      else (
        record c { inner = open_map (insert key (touch (next_tick c) e) m); clock = next_tick c },
        some (touch (next_tick c) e),
      )

  abbrev pub find_in :
      VerifiedTokenCache Content
      → Inner Content
      → Str
      → ℕ
      → VerifiedTokenCache Content × Option (CacheEntry Content)
  find_in c poisoned key now = (c, none)
  find_in c (open_map m) key now = found c m key now (get key m)

  unfoldable pub find :
      VerifiedTokenCache Content
      → Str
      → ℕ
      → VerifiedTokenCache Content × Option (CacheEntry Content)
  unfolding entry_deadline
  find c key now = find_in c c.inner key now

  abbrev pub make_room :
      ℕ → Str → HashMap Str (CacheEntry Content) → HashMap Str (CacheEntry Content)
  make_room capacity key m =
      if not (contains_key key m) && leb capacity (length m)
      then evict_one (λ e. e.last_access) m
      else m

  abbrev pub store_in :
      VerifiedTokenCache Content
      → Inner Content
      → Str
      → CacheEntry Content
      → VerifiedTokenCache Content
  store_in c poisoned key e = record c { clock = next_tick c }
  store_in c (open_map m) key e = record c {
    inner = open_map (insert key e (make_room c.capacity key m));
    clock = next_tick c;
  }

  -- `insert`, on the binding and the expiry of the token
  abbrev pub store_bound :
      VerifiedTokenCache Content
      → Str
      → VerifiedToken Content
      → ℕ
      → Option Str
      → Option ℤ
      → VerifiedTokenCache Content
  store_bound c key token now none exp = c
  store_bound c key token now (some jkt) none = c
  store_bound c key token now (some jkt) (some exp) = store_in c c.inner key (record {
    token = token;
    cnf_jkt = jkt;
    exp = exp;
    inserted_at = now;
    last_access = next_tick c;
  })

  -- `insert`
  unfoldable pub store :
      Libraries
      → VerifiedTokenCache Content
      → Str
      → VerifiedToken Content
      → ℕ
      → VerifiedTokenCache Content
  store lib c access_token token now =
      store_bound c (lib.sha256 access_token) token now token.cnf_jkt token.expiry

  module _ (lib : Libraries) {Replay : Type 0} (mark : Str → ℕ → Replay → Replay × MarkResult) where
    abbrev pub decision : VerifiedToken Content → Option VerifyError → CacheDecision Content
    decision token none = verified token
    decision token (some e) = reject e

    abbrev pub decide :
        ProofPolicy
        → Option (CacheEntry Content)
        → Option Str
        → Str
        → Str
        → Str
        → ℕ
        → Replay
        → Replay × CacheDecision Content
    decide policy none dpop_proof key method url now store = (store, miss)
    decide policy (some e) dpop_proof key method url now store =
        let (store', outcome) =
          verify_fresh_proof lib mark policy dpop_proof key e.cnf_jkt method url now store in
        (store', decision e.token outcome)

    unfoldable pub authenticate :
        VerifiedTokenCache Content
        → Str
        → Option Str
        → Str
        → Str
        → ℕ
        → Replay
        → VerifiedTokenCache Content × Replay × CacheDecision Content
    unfolding find
    authenticate c access_token dpop_proof method url now store =
        let key = lib.sha256 access_token in
        let (c', entry) = find c key now in
        let (store', outcome) = decide c.policy entry dpop_proof key method url now store in
        (c', store', outcome)
