-- ===== src/Notifications/Tokens/Tracking.antt =====
-- src/notifications/mod.rs: calls on the hub, and what its map of tokens holds.
use mathlib.Core.Option.{some-injective}
use solid_server_rs.Prelude.{
  ℕ, ◌≤◌, ◌<◌, ltb, leb, lt→ltb, leb→le, ◌≡◌, refl, inl, inr, Option, none, some, List, [], ◌∷◌,
  Str, str_eq, str_eq_iff, if◌then◌else◌, arith, All, Bool-cases,
}
use solid_server_rs.Collections.{get, remove, insert, retain, str_key}
use solid_server_rs.Collections.Laws.{get-remove, get-insert}
use solid_server_rs.Collections.Distinct.{
  IsDistinct, get-retain, remove-IsDistinct, insert-IsDistinct, retain-IsDistinct,
}
use solid_server_rs.Notifications.Tokens.{
  ReceiveTokenBinding, ReceiveTokens, base64url_nopad, binding_of, mint_receive_token,
  validate_found, validate_receive_token,
}

-- The calls on the hub, each with its time under the lock; of a receive request only the validation
-- of the token changes the hub.
pub data Call : Type 0 where
  mint_call : List ℕ → Str → Str → ℕ → ℕ → Call
  validate_call : Str → Str → ℕ → Call

abbrev pub time_of : Call → ℕ
time_of (mint_call random web_id topic created_at now) = now
time_of (validate_call token topic now) = now

unfoldable pub run : ReceiveTokens → List Call → ReceiveTokens
run m [] = m
run m (mint_call random web_id topic created_at now ∷ calls) =
    run (mint_receive_token random web_id topic created_at now m).0 calls
run m (validate_call token topic now ∷ calls) =
    run (validate_receive_token m token topic now).0 calls

-- what a token was last minted for
abbrev pub Ideal : Type 0
Ideal = Str → Option ReceiveTokenBinding

unfoldable pub last_minted : Ideal → List Call → Ideal
last_minted ideal [] = ideal
last_minted ideal (mint_call random web_id topic created_at now ∷ calls) =
    last_minted
      (λ k.
        if str_eq (base64url_nopad random) k
        then some (binding_of web_id topic created_at)
        else ideal k)
      calls
last_minted ideal (validate_call token topic now ∷ calls) = last_minted ideal calls

-- What is in the map was minted, and what was minted is there unless it has expired by `now`.
pub record Tracks (ideal : Ideal) (now : ℕ) (m : ReceiveTokens) : Type 0 where
  pub distinct : IsDistinct m
  pub sound : (k : Str) (b : ReceiveTokenBinding) → get k m ≡ some b → ideal k ≡ some b
  pub complete :
      (k : Str) (b : ReceiveTokenBinding) → ideal k ≡ some b → now < b.expires_at → get k m ≡ some b

remove-Tracks :
    (ideal : Ideal) (now : ℕ) (token : Str) (b : ReceiveTokenBinding) (m : ReceiveTokens)
    → Tracks ideal now m
    → get token m ≡ some b
    → b.expires_at ≤ now
    → Tracks ideal now (remove token m)
remove-Tracks ideal now token b m t h old = record {
  distinct = remove-IsDistinct token m t.distinct;
  sound = λ k c f. elim (Bool-cases (str_eq token k)) [
    | inl y ↦ absurd (cc (rw (get-remove token k m, y) at f))
    | inr n ↦ t.sound k c (rw (get-remove token k m, n) at f)
  ];
  complete = λ k c f live. elim (Bool-cases (str_eq token k)) [
    | inl y ↦
        let same : b ≡ c =
          some-injective b c (cc (t.sound token b h, f, (str_eq_iff token k).0 y)) in
        absurd (omega (arith, (rw same at old), live))
    | inr n ↦ rw (get-remove token k m, n) (t.complete k c f live)
  ];
}

validate-Tracks :
    (ideal : Ideal) (now : ℕ) (m : ReceiveTokens) (token topic : Str) (at : ℕ)
    (o : Option ReceiveTokenBinding)
    → Tracks ideal now m
    → at ≤ now
    → get token m ≡ o
    → Tracks ideal now (validate_found m token topic at o).0
validate-Tracks ideal now m token topic at none t earlier h = t
validate-Tracks ideal now m token topic at (some b) t earlier h =
    elim (Bool-cases (leb b.expires_at at)) [
      | inl y ↦ rw y (remove-Tracks ideal now token b m t h (omega (arith, leb→le _ _ y, earlier)))
      | inr n ↦ rw n t
    ]

mint-Tracks :
    (ideal : Ideal) (now : ℕ) (m : ReceiveTokens) (token : Str) (b : ReceiveTokenBinding) (at : ℕ)
    → Tracks ideal now m
    → at ≤ now
    → Tracks
        (λ k. if str_eq token k then some b else ideal k)
        now
        (insert token b (retain (λ c. ltb at c.expires_at) m))
mint-Tracks ideal now m token b at t earlier =
    let kept : ReceiveTokens = retain (λ c. ltb at c.expires_at) m in
    record {
      distinct =
          insert-IsDistinct token b kept
            (retain-IsDistinct (λ c. ltb at c.expires_at) m t.distinct);
      sound = λ k c f. elim (Bool-cases (str_eq token k)) [
        | inl y ↦ rw y (rw (get-insert token k b kept, y) at f)
        | inr n ↦ rw n (
            t.sound k c
              ((get-retain (λ c. ltb at c.expires_at) k m t.distinct c).0
                (rw (get-insert token k b kept, n) at f)).0)
      ];
      complete = λ k c f live. elim (Bool-cases (str_eq token k)) [
        | inl y ↦ rw (get-insert token k b kept, y) (rw y at f)
        | inr n ↦
            rw (get-insert token k b kept, n)
              ((get-retain (λ c. ltb at c.expires_at) k m t.distinct c).1 (
                t.complete k c (rw n at f) live,
                lt→ltb at c.expires_at (omega (arith, earlier, live)),
              ))
      ];
    }

pub run-Tracks :
    (now : ℕ) (calls : List Call) (ideal : Ideal) (m : ReceiveTokens)
    → Tracks ideal now m
    → All (λ c. time_of c ≤ now) calls
    → Tracks (last_minted ideal calls) now (run m calls)
unfolding run last_minted mint_receive_token validate_receive_token
run-Tracks now [] ideal m t h = t
run-Tracks now (mint_call random web_id topic created_at at ∷ calls) ideal m t (earlier, h) =
    run-Tracks now calls _ _
      (mint-Tracks ideal now m (base64url_nopad random) (binding_of web_id topic created_at) at t
        earlier)
      h
run-Tracks now (validate_call token topic at ∷ calls) ideal m t (earlier, h) =
    run-Tracks now calls ideal _
      (validate-Tracks ideal now m token topic at (get token m) t earlier refl) h
