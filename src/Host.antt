-- ===== src/Host.antt =====
-- What the mutation modules take from the interpreter and the operating system: the digest of a
-- JSON value (`json.dumps`, `hashlib.sha256`), the canonical form of a path (`Path.resolve`), its
-- text, the ISO text of an instant, the Unicode tables of `str.casefold` and `str.lower`, and
-- `urllib.parse.urlsplit`. An instant is a natural number of microseconds.
use sentinelx_cloud_core.Base.{ℕ, String, Bool, Option, List}

-- The JSON values that the program hashes.
pub data Scalar : Type 0 where
  null : Scalar
  text : String → Scalar
  number : ℕ → Scalar
  flag : Bool → Scalar
  texts : List String → Scalar

pub data Value : Type 0 where
  scalar : Scalar → Value
  mapping : List (String × Scalar) → Value

-- The parts of an absolute path below its root.
abbrev pub FilePath : Type 0
FilePath = List String

pub data Port : Type 0 where
  no_port : Port
  port : ℕ → Port
  invalid_port : Port

pub record UrlParts : Type 0 where
  pub hostname : Option String
  pub port_of : Port

pub record Host : Type 0 where
  pub digest : Value → String
  pub resolve : FilePath → FilePath
  pub path_text : FilePath → String
  pub iso : ℕ → String
  pub casefold : String → String
  pub lower : String → String
  pub urlsplit : String → UrlParts
