-- ===== src/Scope/Transaction.antt =====
-- The world of a store call: authority.json on disk, and the dictionary `state` that the call has
-- in hand. A raise keeps what was changed before it. Each call holds the file lock throughout, so
-- a call is one step for every other process.
use sentinelx_cloud_core.Base.{Bool, true, false}
use sentinelx_cloud_core.Base.Result.{Result, ok, err}
use sentinelx_cloud_core.Errors.{Error, not_current}
use sentinelx_cloud_core.Scope.Record.{MutationScopeRecord}
use sentinelx_cloud_core.Scope.Authority.{
  Authority, Document, empty_state, loaded, written, put_record,
}

pub record World : Type 0 where
  pub document : Document
  pub state : Authority

abbrev pub M : Type 0 → Type 0
M A = World → Result Error A × World

abbrev pub continue : {A B : Type 0} → Result Error A → (A → M B) → M B
continue (ok a) f w = f a w
continue (err e) f w = (err e, w)

unfoldable pub pure : {A : Type 0} → A → M A
pure a w = (ok a, w)

unfoldable pub raise : {A : Type 0} → Error → M A
raise e w = (err e, w)

unfoldable pub lift : {A : Type 0} → Result Error A → M A
lift r w = (r, w)

-- `if test: raise e`
unfoldable pub throw_if : Bool → Error → M (Unit {0})
throw_if true e w = (err e, w)
throw_if false e w = (ok tt, w)

-- `if test: action`
unfoldable pub when : Bool → M (Unit {0}) → M (Unit {0})
when true m w = m w
when false m w = (ok tt, w)

unfoldable pub gets : {A : Type 0} → (Authority → A) → M A
gets f w = (ok (f w.state), w)

unfoldable pub modify : (Authority → Authority) → M (Unit {0})
modify f w = (ok tt, record w { state = f w.state })

-- `state = self._load_state()`
unfoldable pub load_state : M (Unit {0})
load_state w = continue (loaded w.document) (λ s w. (ok tt, record w { state = s })) w

-- `self._load_state()`, read back into another name
unfoldable pub read_back : M Authority
read_back w = (loaded w.document, w)

-- `self._put_record(state, record)`
unfoldable pub put : MutationScopeRecord → M (Unit {0})
put r w = (ok tt, record w { state = put_record w.state r })

-- `self._durable_write_state(state)`, a replacement of the whole file
unfoldable pub write_state : M (Unit {0})
write_state w = (ok tt, record w { document = written w.state })

-- Opening this opens the programs above.
infixl 5 ◌>>=◌ ◌>>◌
unfoldable pub ◌>>=◌ : {A B : Type 0} → M A → (A → M B) → M B
unfolding pure raise lift throw_if when gets modify load_state read_back put write_state
◌>>=◌ m f w = let (r, w') = m w in continue r f w'

abbrev pub ◌>>◌ : {A B : Type 0} → M A → M B → M B
m >> k = m >>= λ _. k

abbrev pub handle : {A : Type 0} → Result Error A → M (Unit {0}) → M A
handle (err not_current) cleanup = cleanup >> raise not_current
handle r cleanup = lift r

-- `try: m except HostMutationScopeNotCurrent: cleanup; raise`
unfoldable pub on_not_current : {A : Type 0} → M A → M (Unit {0}) → M A
unfolding ◌>>=◌
on_not_current m cleanup w = let (r, w') = m w in handle r cleanup w'

abbrev pub or_empty : Result Error Authority → Authority
or_empty (ok s) = s
or_empty (err e) = empty_state

-- A call from outside. Every call loads the dictionary before it uses it.
abbrev pub start : Document → World
start d = record { document = d; state = or_empty (loaded d) }
