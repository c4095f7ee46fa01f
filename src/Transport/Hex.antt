-- ===== src/Transport/Hex.antt =====
-- `DataBuf::bytesToHex` of rt_client_server/transport.cc, which the log lines use.
use rpc_transport_tests.Prelude.{
  ℕ, ◌+◌, ◌-◌, ◌*◌, ◌/◌, ◌%◌, ◌≤◌, ◌<◌, ◌≢◌, ◌≡◌, refl, ltb, if◌then◌else◌, some, [], ◌∷◌, ◌++◌,
  All, codes, length, arith, leb, take, true, ◌⊎◌, Option, none, Bool-cases, inl, inr, ◌==◌,
}
use rpc_transport_tests.Memory.{
  Ptr, null, Bytes, World, string, DataBuf, Run, Object, message, as_string, fault, resume,
  load_string, Cmd, ok, pure, ◌>>=◌, ◌>>◌, read_bytes,
}
use rpc_transport_tests.Machine.{Machine, when_verbose}
use rpc_transport_tests.Transport.{read_buf}
use rpc_transport_tests.Transport.Views.{read_buf-ok}

hex_digit : ℕ → ℕ
hex_digit d = if ltb d 10 then b'0' + d else b'a' + (d - 10)

-- `std::hex << std::setw(2)` with `std::setfill('0')`
hex_bytes : Bytes → Bytes
unfolding hex_digit
hex_bytes [] = []
hex_bytes (b ∷ bs) = hex_digit (b / 16) ∷ hex_digit (b % 16) ∷ hex_bytes bs

unfoldable pub bytes_to_hex : Ptr → ℕ → Cmd Bytes
unfolding hex_bytes
bytes_to_hex p n = do bs ← read_bytes p n; pure (codes "0x" ++ hex_bytes bs)

-- A log line with that text, which is left out.
unfoldable pub log_bytes : Ptr → ℕ → Cmd (Unit {0})
unfolding bytes_to_hex
log_bytes p n = do bytes_to_hex p n; pure tt

-- The characters of a live string and its closing NUL can be logged.
pub log_bytes-ok :
    (p : Ptr) (n : ℕ) (bs : Bytes) (w : World)
    → w.cell p ≡ some (string bs)
    → p ≢ null
    → n ≤ length bs + 1
    → log_bytes p n w ≡ ok tt w
unfolding log_bytes read_bytes
log_bytes-ok p n bs w live ne fits = ground arith

-- More than those cannot.
pub log_bytes-fault :
    (p : Ptr) (n : ℕ) (bs : Bytes) (w : World)
    → w.cell p ≡ some (string bs)
    → length bs + 1 < n
    → log_bytes p n w ≡ fault
unfolding log_bytes read_bytes load_string
log_bytes-fault p n bs w live long = ground arith

-- A load gives the characters and changes nothing, or is undefined.
load_string-cases :
    (p : Ptr) (w : World) → (load_string p w ≡ fault) ⊎ ((s : Bytes) × (load_string p w ≡ ok s w))
unfolding load_string
load_string-cases p w = elim (Bool-cases (p == null)) [
  | inl nowhere ↦ inl (rw nowhere)
  | inr there ↦ rw there (found (w.cell p))
]
  where
    found :
        (o : Option Object)
        → (elim (as_string o) as (λ _. Run Bytes) [ none ↦ fault | some s ↦ ok s w ] ≡ fault)
          ⊎ ((s : Bytes) × (elim (as_string o) as (λ _. Run Bytes) [
            | none ↦ fault
            | some s ↦ ok s w
          ]
                ≡ ok s w))
    found none = inl refl
    found (some (string s)) = inr (s, refl)
    found (some (message m)) = inl refl

-- A read of characters changes nothing and they can be logged, or it is undefined.
pub read_bytes-cases :
    (p : Ptr) (n : ℕ) (w : World)
    → (read_bytes p n w ≡ fault)
      ⊎ ((bs : Bytes) × (read_bytes p n w ≡ ok bs w)
          × ((m : ℕ) → m ≤ n → log_bytes p m w ≡ ok tt w))
unfolding log_bytes read_bytes
read_bytes-cases p n w = elim (load_string-cases p w) [
  | inl nowhere ↦ inl (rw nowhere)
  | inr (s, there) ↦ elim (Bool-cases (leb n (length s + 1))) [
    | inl fits ↦
        inr (take n (s ++ (0 ∷ [])), rw (there, fits) refl, λ m le. rw (there, fewer s m le fits))
    | inr long ↦ inl (rw (there, long))
  ]
]
  where
    fewer : (s : Bytes) (m : ℕ) → m ≤ n → leb n (length s + 1) ≡ true → leb m (length s + 1) ≡ true
    fewer s m le fits = ground arith

-- A log line of the first character in front of a read changes nothing, whatever is read.
pub log_then_read :
    {A : Type 0} (env : Machine) (b : DataBuf) (k : Bytes → Cmd A) (w : World)
    → resume (when_verbose env (log_bytes b.addr 1) w) (λ _ w'. resume (read_buf b w') k)
      ≡ resume (read_buf b w) k
unfolding log_bytes read_bytes read_buf
log_then_read env b k w = elim (Bool-cases env.verbose) [
  | inl on ↦ rw on (elim (load_string-cases b.addr w) [
    | inl nowhere ↦ rw nowhere
    | inr (s, there) ↦ rw (there, one_fits s, there)
  ])
  | inr off ↦ rw off
]
  where
    one_fits : (s : Bytes) → leb 1 (length s + 1) ≡ true
    one_fits s = ground arith

-- The reading of such digits.
abbrev digit_value : ℕ → ℕ
digit_value c = if ltb c b'a' then c - b'0' else c - b'a' + 10

abbrev of_hex : Bytes → Bytes
of_hex (h ∷ l ∷ rest) = (digit_value h * 16 + digit_value l) ∷ of_hex rest
of_hex _ = []

digit_value-hex_digit : (d : ℕ) → d < 16 → digit_value (hex_digit d) ≡ d
unfolding hex_digit
digit_value-hex_digit d h = ground arith

of_hex-hex_bytes : (bs : Bytes) → All (λ b. b < 256) bs → of_hex (hex_bytes bs) ≡ bs
unfolding hex_bytes
of_hex-hex_bytes [] h = refl
of_hex-hex_bytes (b ∷ bs) (small, h) =
    rw
      (
        digit_value-hex_digit (b / 16) (omega (arith, small)),
        digit_value-hex_digit (b % 16) (omega arith),
        of_hex-hex_bytes bs h,
      )
      (same_byte b bs)
  where
    same_byte : (c : ℕ) (cs : Bytes) → ((c / 16) * 16 + c % 16) ∷ cs ≡ c ∷ cs
    same_byte c cs = ground arith

-- The text that bytesToHex makes of a live string of bytes is `0x` and digits, which give the bytes
-- back when they are read in pairs.
of_hex-bytes_to_hex :
    (p : Ptr) (bs : Bytes) (w : World)
    → w.cell p ≡ some (string bs)
    → p ≢ null
    → All (λ b. b < 256) bs
    → (digits : Bytes) × (bytes_to_hex p (length bs) w ≡ ok (codes "0x" ++ digits) w)
      × (of_hex digits ≡ bs)
unfolding bytes_to_hex read_buf
of_hex-bytes_to_hex p bs w live ne small =
    let here : read_bytes p (length bs) w ≡ ok bs w =
      read_buf-ok (record { addr = p; len = length bs }) bs w refl live ne in
    (hex_bytes bs, rw here refl, of_hex-hex_bytes bs small)
