-- ===== src/Wallet/Password.antt =====
-- For readPassword: what is left of a password file.
use ssv_oracle.Prelude.{◌≡◌, ◌≢◌, refl, ap, true, false, some, [], ◌∷◌, ◌++◌, All, Text}
use ssv_oracle.Wallet.{System, is_line_end, trim_line_ends, read_password}

abbrev pub AreLineEnds : Text → Type 0
AreLineEnds = All (λ c. is_line_end c ≡ true)

-- The text does not end in a line end.
abbrev pub EndsClean : Text → Type 0
EndsClean [] = Unit
EndsClean (c ∷ []) = is_line_end c ≡ false
EndsClean (c ∷ d ∷ s) = EndsClean (d ∷ s)

trim_line_ends-ends : (tail : Text) → AreLineEnds tail → trim_line_ends tail ≡ []
unfolding trim_line_ends
trim_line_ends-ends [] h = refl
trim_line_ends-ends (c ∷ s) h = rw (trim_line_ends-ends s h.1, h.0) refl

trim_line_ends-append :
    (p tail : Text) → EndsClean p → AreLineEnds tail → trim_line_ends (p ++ tail) ≡ p
unfolding trim_line_ends
trim_line_ends-append [] tail e h = trim_line_ends-ends tail h
trim_line_ends-append (c ∷ []) tail e h = rw (trim_line_ends-ends tail h, e) refl
trim_line_ends-append (c ∷ d ∷ s) tail e h = rw (trim_line_ends-append (d ∷ s) tail e h) refl

-- A password that does not end in a line end is read back whole from a file that has it with any line
-- ends behind it, spaces included, and whatever the variable says.
pub read_password_from_file :
    (sys : System) (env file password tail : Text)
    → file ≢ []
    → sys.read_file file ≡ some (password ++ tail)
    → EndsClean password
    → AreLineEnds tail
    → read_password sys env file ≡ some password
unfolding read_password
read_password_from_file sys env [] password tail n h e l = absurd (n refl)
read_password_from_file sys [] (f ∷ file) password tail n h e l =
    rw (h, read_password) (ap some (trim_line_ends-append password tail e l))
read_password_from_file sys (v ∷ env) (f ∷ file) password tail n h e l =
    rw (h, read_password) (ap some (trim_line_ends-append password tail e l))
