-- ===== src/Engine/Start/Begun.antt =====
-- transfer_engine.cpp `begin_transaction_` with a backend: what a START begins with.
use mathlib.Core.Path.{subst}
use od_esphome.Base.{refl, sym, ℕ, ◌≡◌, Option, some, if◌then◌else◌, arith, Bool, true, false}
use od_esphome.Types.{TransferMode, ErrorCode, is_idle}
use od_esphome.Backend.{Backend}
use od_esphome.Engine.State.{Engine, abort}
use od_esphome.Engine.Start.{begin_transaction, open_frame}

pub if-either :
    {A : Type 0} (P : A → Type 0) (b : Bool) (x y : A)
    → (b ≡ true → P x)
    → P y
    → P (if b then x else y)
if-either P true x y p q = p refl
if-either P false x y p q = q

module _ {D : Type 0} (api : Backend D) where
  begin_transaction-some :
      (e : Engine D) (d : D) (mode : TransferMode) (total now_ms : ℕ)
      → e.backend ≡ some d
      → begin_transaction api e mode total now_ms ≡ (
          if e.hw_owned
          then (some ErrorCode.busy, e)
          else if is_idle e.txn.state
          then open_frame api e d mode total now_ms
          else open_frame api
              (abort api e ErrorCode.invalid_state)
              (api.abort_transfer d)
              mode
              total
              now_ms)
  unfolding begin_transaction
  begin_transaction-some e d mode total now_ms b = ground (arith, b)

  -- What holds of the engine in each of the three cases holds of the engine behind it.
  pub begin-either :
      (P : Engine D → Type 0) (e : Engine D) (d : D) (mode : TransferMode) (total now_ms : ℕ)
      → e.backend ≡ some d
      → (e.hw_owned ≡ true → P e)
      → P (open_frame api e d mode total now_ms).1
      → P
          (open_frame api
            (abort api e ErrorCode.invalid_state)
            (api.abort_transfer d)
            mode
            total
            now_ms).1
      → P (begin_transaction api e mode total now_ms).1
  begin-either P e d mode total now_ms b busy opened reopened =
      let first = open_frame api e d mode total now_ms in
      let stopped = abort api e ErrorCode.invalid_state in
      let again = open_frame api stopped (api.abort_transfer d) mode total now_ms in
      let over = λ (k : Option ErrorCode × Engine D). P k.1 in
      subst over (sym (begin_transaction-some e d mode total now_ms b)) (
        if-either over e.hw_owned (some ErrorCode.busy, e)
          (if is_idle e.txn.state then first else again) busy
          (if-either over (is_idle e.txn.state) first again (λ idle. opened) reopened))
