-- ===== src/Memory.antt =====
-- The memory of one process, and commands that run in it: objects at addresses, with the
-- exceptions, the aborts and the undefined behaviour of the language.
pub mod Ints
pub mod Yields
use rpc_transport_tests.Prelude.{
  ℕ, suc, ◌+◌, Bool, Option, none, some, List, [], ◌∷◌, ◌++◌, length, take, leb, ◌==◌,
  if◌then◌else◌,
}
use rpc_transport_tests.Prelude.Int.{ℤ, fits_int32, ◌+ℤ◌, ◌*ℤ◌}

abbrev pub Ptr : Type 0
Ptr = ℕ

abbrev pub null : Ptr
null = 0

-- The characters of a `std::string`.
abbrev pub Bytes : Type 0
Bytes = List ℕ

-- rt::DataBuf: a view of characters that another object owns.
pub record DataBuf : Type 0 where
  pub addr : Ptr
  pub len : ℕ

-- rt::Msg
pub record Msg : Type 0 where
  pub bufs : List DataBuf

-- What an address can hold. A string stands for the object and for its characters.
pub data Object : Type 0 where
  string : Bytes → Object
  message : Msg → Object

-- Addresses are handed out in order and are never used again. `draws` counts the calls of
-- `randombytes_buf`, and `intervals` the intervals that were measured with `steady_clock`.
pub record World : Type 0 where
  pub cell : Ptr → Option Object
  pub count : ℕ
  pub draws : ℕ
  pub intervals : ℕ

pub data Exception : Type 0 where
  runtime_error : Bytes → Exception
  bad_alloc : Exception
  bad_function_call : Exception
  kj_exception : Exception

-- The end of a run: a value, an exception, `std::abort`, or undefined behaviour.
pub data Run (A : Type 0) : Type 0 where
  ok : A → World → Run A
  throw : Exception → World → Run A
  abort : Run A
  fault : Run A

abbrev pub Cmd : Type 0 → Type 0
Cmd A = World → Run A

abbrev pub pure : {A : Type 0} → A → Cmd A
pure = ok

abbrev pub raise : {A : Type 0} → Exception → Cmd A
raise = throw

module _ {A B : Type 0} where
  abbrev pub resume : Run A → (A → Cmd B) → Run B
  resume (ok a w) k = k a w
  resume (throw e w) k = throw e w
  resume abort k = abort
  resume fault k = fault

  infixl 5 ◌>>=◌ ◌>>◌
  abbrev pub ◌>>=◌ : Cmd A → (A → Cmd B) → Cmd B
  m >>= k = λ w. resume (m w) k

  abbrev pub ◌>>◌ : Cmd A → Cmd B → Cmd B
  m >> n = m >>= λ _. n

-- A value that is there, or an exception.
abbrev pub or_raise : {A : Type 0} → Option A → Exception → Cmd A
or_raise none e = raise e
or_raise (some a) e = pure a

-- `try { ... } catch (const std::exception &) { std::abort(); }`
abbrev pub or_abort : {A : Type 0} → Run A → Run A
or_abort (ok a w) = ok a w
or_abort (throw e w) = abort
or_abort abort = abort
or_abort fault = fault

abbrev pub update : (Ptr → Option Object) → Ptr → Option Object → Ptr → Option Object
update f p v q = if p == q then v else f q

-- A new object at an address that was never handed out.
unfoldable pub alloc : Object → Cmd Ptr
alloc o w = let p = suc w.count in ok p (record w { cell = update w.cell p (some o); count = p })

-- The end of an object's life.
unfoldable pub free : Ptr → Cmd (Unit {0})
free p w = ok tt (record w { cell = update w.cell p none })

abbrev pub as_string : Option Object → Option Bytes
as_string (some (string s)) = some s
as_string _ = none

-- `*p` for a string: undefined at `nullptr` and at an address that holds none.
unfoldable pub load_string : Ptr → Cmd Bytes
load_string p w =
    if p == null then fault else elim (as_string (w.cell p)) [ none ↦ fault | some s ↦ ok s w ]

abbrev as_message : Option Object → Option Msg
as_message (some (message m)) = some m
as_message _ = none

-- A value that is there, or undefined behaviour.
abbrev pub or_fault : {A : Type 0} → Option A → Cmd A
or_fault none w = fault
or_fault (some a) w = ok a w

unfoldable pub load_message : Ptr → Cmd Msg
load_message p w = or_fault (as_message (w.cell p)) w

-- The first `n` characters from `p`. Those of a string are followed by a NUL that may be read.
unfoldable pub read_bytes : Ptr → ℕ → Cmd Bytes
unfolding load_string
read_bytes p n = do
  s ← load_string p
  if leb n (length s + 1) then pure (take n (s ++ (0 ∷ []))) else (λ _. fault)

-- The value of an `int` expression: overflow is undefined.
unfoldable pub int_of : ℤ → Cmd ℤ
int_of a = if fits_int32 a then pure a else (λ _. fault)

unfoldable pub add_int : ℤ → ℤ → Cmd ℤ
unfolding int_of
add_int a b = int_of (a +ℤ b)

unfoldable pub mul_int : ℤ → ℤ → Cmd ℤ
unfolding int_of
mul_int a b = int_of (a *ℤ b)
