-- ===== src/Server/Changed.antt =====
-- A request that has changed something has got past every part that changes nothing.
use verstak_sync_server.Prelude.{
  ◌≡◌, ◌≢◌, refl, sym, ap, ◌∙◌, ℤ, is_nonpositive, magnitude, if◌then◌else◌,
}
use verstak_sync_server.Server.World.{World}
use verstak_sync_server.Server.Reply.{Reply}
use verstak_sync_server.Server.Request.{
  JsonBody, Decoded, Trailing, value, end_of_body, another, after_value, first_value,
  decode_json_body,
}
use verstak_sync_server.Server.Action.{
  Exit, ok, halt, M, continue, ◌>>=◌, answer, Row, row, no_rows, broken, row_or,
}
use verstak_sync_server.Server.Success.{Succeeds}
use verstak_sync_server.Server.Frame.{Keeps}

module _ {κ} {X : Type κ} (g : World → X) where
  pub after-Keeps {ℓ} :
      {A : Type ℓ} (m : M A) (w u : World) (a : A) → Keeps g m → Succeeds m w a u → g u ≡ g w
  after-Keeps {A = A} m w u a k h = sym (ap (λ (p : Exit A × World). g p.1) h) ∙ k w

  module _ {ℓ} {A : Type ℓ} (f : A → M Reply) where
    -- A part that changes nothing, and what comes after it, which therefore has.
    abbrev pub Passed : World → M A → Type (ℓ ⊔ κ)
    Passed w m = (a : A) × (u : World) × Succeeds m w a u × (g (answer (f a) u).1 ≢ g u)

    pub bind-changed :
        (m : M A) (w : World) → Keeps g m → g (answer (m >>= f) w).1 ≢ g w → Passed w m
    bind-changed m w k h = go (m w) refl
      where
        go : (e : Exit A × World) → m w ≡ e → Passed w m
        go (ok a, u) same =
            let kept = after-Keeps m w u a k same in
            (a, u, same, λ e. h (ap (λ p. g (continue f p).1) same ∙ e ∙ kept))
        go (halt reply, u) same = absurd (
            h (
              ap (λ p. g (continue f p).1) same
              ∙ sym (ap (λ (p : Exit A × World). g p.1) same)
              ∙ k w))

  module _ {ℓ} {A : Type ℓ} where
    after_value-Keeps : (a : A) (rest : Trailing) → Keeps g (after_value a rest)
    after_value-Keeps a end_of_body = λ _. refl
    after_value-Keeps a another = λ _. refl
    after_value-Keeps a Trailing.too_large = λ _. refl
    after_value-Keeps a Trailing.malformed = λ _. refl

    first_value-Keeps : (first : Decoded A) (rest : Trailing) → Keeps g (first_value first rest)
    first_value-Keeps (value a) rest = after_value-Keeps a rest
    first_value-Keeps Decoded.too_large rest = λ _. refl
    first_value-Keeps Decoded.malformed rest = λ _. refl

    pub decode_json_body-Keeps :
        (body : JsonBody A) (limit : ℤ) → Keeps g (decode_json_body body limit)
    unfolding decode_json_body
    decode_json_body-Keeps body limit =
        let read = body (if is_nonpositive limit then 1 else magnitude limit) in
        first_value-Keeps read.0 read.1

    pub row_or-Keeps : (r : Row A) (missing failed : Reply) → Keeps g (row_or r missing failed)
    row_or-Keeps (row a) missing failed = λ _. refl
    row_or-Keeps no_rows missing failed = λ _. refl
    row_or-Keeps broken missing failed = λ _. refl
