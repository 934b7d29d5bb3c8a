-- ===== src/Json.antt =====
-- JSON values as the program writes and hashes them, and their equality.
use sentinelx_cloud_core.Base.{
  ℕ, String, Bool, true, false, ◌≡◌, refl, ◌&&◌, ◌==◌, List, string_eq, nat_eq, list_eq,
}

-- The JSON values that are written or hashed; `fields` are in the source's order.
mutual
  pub data Json : Type 0 where
    null : Json
    text : String → Json
    number : ℕ → Json
    flag : Bool → Json
    texts : List String → Json
    object : Fields → Json

  pub data Fields : Type 0 where
    end : Fields
    field : String → Json → Fields → Fields

unfoldable mutual
  pub json_beq : Json → Json → Bool
  json_beq null null = true
  json_beq (text s) (text t) = s == t
  json_beq (number m) (number n) = m == n
  json_beq (flag true) (flag b) = b
  json_beq (flag false) (flag true) = false
  json_beq (flag false) (flag false) = true
  json_beq (texts a) (texts b) = a == b
  json_beq (object f) (object g) = fields_beq f g
  json_beq _ _ = false

  pub fields_beq : Fields → Fields → Bool
  fields_beq end end = true
  fields_beq (field k v f) (field j w g) = k == j && (json_beq v w && fields_beq f g)
  fields_beq _ _ = false

mutual
  unfolding json_beq fields_beq

  -- `==` of a JSON value and itself
  pub json_beq_refl : (v : Json) → json_beq v v ≡ true
  json_beq_refl null = refl
  json_beq_refl (text s) = (string_eq.agrees_iff s s).1 refl
  json_beq_refl (number n) = (nat_eq.agrees_iff n n).1 refl
  json_beq_refl (flag true) = refl
  json_beq_refl (flag false) = refl
  json_beq_refl (texts a) = (list_eq.agrees_iff a a).1 refl
  json_beq_refl (object f) = fields_beq_refl f

  pub fields_beq_refl : (f : Fields) → fields_beq f f ≡ true
  fields_beq_refl end = refl
  fields_beq_refl (field k v f) =
      rw ((string_eq.agrees_iff k k).1 refl, json_beq_refl v, fields_beq_refl f) refl
