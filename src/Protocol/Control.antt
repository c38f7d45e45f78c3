-- ===== src/Protocol/Control.antt =====
-- internal/protocol/control.go: the control messages. encoding/json is a parameter, `none` an error.
use veilink.Prelude.{
  Option, none, some, ltb, ok, err, panic, ◌≤◌, err, length, arith, ltb, ok, some, if◌then◌else◌,
  ◌≡◌, Result, ℕ, Option, ℤ, Bytes,
}

pub record Hello : Type 0 where
  pub client_name : Bytes
  pub session_id : Bytes
  pub mtu : ℤ

pub record Welcome : Type 0 where
  pub address : Bytes
  pub gateway : Bytes
  pub mtu : ℤ
  pub session_id : Bytes

pub data ControlError : Type 0 where
  json_failed too_large : ControlError

-- `json.Marshal` and `json.Unmarshal` at one type.
pub record Json (A : Type 0) : Type 0 where
  pub marshal : A → Option Bytes
  pub unmarshal : Bytes → Option A

abbrev control_limit : ℕ
control_limit = 4096

module _ {A : Type 0} (j : Json A) where
  unfoldable pub marshal_control : A → Result ControlError Bytes
  marshal_control v = elim (j.marshal v) [
    | none ↦ err json_failed
    | some b ↦ if ltb control_limit (length b) then err too_large else ok b
  ]

  pub unmarshal_control : Bytes → Result ControlError A
  unmarshal_control b =
      if ltb control_limit (length b)
      then err too_large
      else (elim (j.unmarshal b) [ none ↦ err json_failed | some v ↦ ok v ])

  -- A value that JSON reads back as it was written is read back from its control message.
  pub unmarshal-marshal_control :
      (v : A) {b : Bytes}
      → ((s : Bytes) → j.marshal v ≡ some s → j.unmarshal s ≡ some v)
      → marshal_control v ≡ ok b
      → unmarshal_control b ≡ ok v
  unfolding marshal_control unmarshal_control
  unmarshal-marshal_control v {b} reads e = ground (arith, reads b)

  pub marshal_control-length :
      (v : A) {b : Bytes} → marshal_control v ≡ ok b → length b ≤ control_limit
  unfolding marshal_control
  marshal_control-length v {b} e = ground arith

  pub unmarshal_control-ne-panic : (b : Bytes) → ¬ (unmarshal_control b ≡ panic)
  unfolding unmarshal_control
  unmarshal_control-ne-panic b e = absurd (ground arith)
