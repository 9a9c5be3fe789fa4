-- ===== src/Ldp/HttpDate.antt =====
-- src/ldp/conditional.rs: the dates of HTTP, as seconds since 1970.
use solid_server_rs.Prelude.{
  ℕ, suc, ◌+◌, ◌-◌, ◌*◌, ◌/◌, ◌%◌, ltb, leb, Bool, false, not, ◌&&◌, ◌||◌, Option, none, some, List,
  [], ◌∷◌, Str, codes, all, str_eq, trim, is_ascii, is_ascii_digit, ℤ, pos, negsuc, ◌+ℤ◌, times,
  quotient, rem_euclid, negative, if◌then◌else◌, ◌==◌, get_elem?,
}

unfoldable pub two_digits : ℕ → ℕ → Option ℕ
two_digits d1 d2 =
    if is_ascii_digit d1 && is_ascii_digit d2 then some ((d1 - b'0') * 10 + (d2 - b'0')) else none

unfoldable pub four_digits : ℕ → List ℕ → Option ℕ
four_digits acc [] = some acc
four_digits acc (d ∷ ds) =
    let rest = four_digits (acc * 10 + (d - b'0')) ds in
    if not (is_ascii_digit d) then none else rest

unfoldable pub days_in_month : ℕ → ℕ → ℕ
days_in_month year month =
    if month == 1
      || month == 3
      || month == 5
      || month == 7
      || month == 8
      || month == 10
      || month == 12
    then 31
    else if month == 4 || month == 6 || month == 9 || month == 11
    then 30
    else if month == 2
    then (if year % 4 == 0 && not (year % 100 == 0) || year % 400 == 0 then 29 else 28)
    else 0

abbrev names : List Str
names =
    codes "Thu"
    ∷ codes "Fri"
    ∷ codes "Sat"
    ∷ codes "Sun"
    ∷ codes "Mon"
    ∷ codes "Tue"
    ∷ codes "Wed"
    ∷ []

-- the index is below 7, so there is a name
unfoldable pub day_name_for : ℤ → Option Str
day_name_for days_since_epoch = get_elem? names (rem_euclid days_since_epoch 7)

abbrev months : List Str
months =
    codes "Jan"
    ∷ codes "Feb"
    ∷ codes "Mar"
    ∷ codes "Apr"
    ∷ codes "May"
    ∷ codes "Jun"
    ∷ codes "Jul"
    ∷ codes "Aug"
    ∷ codes "Sep"
    ∷ codes "Oct"
    ∷ codes "Nov"
    ∷ codes "Dec"
    ∷ []

abbrev position_from : ℕ → Str → List Str → Option ℕ
position_from n m [] = none
position_from n m (x ∷ xs) = if str_eq m x then some n else position_from (suc n) m xs

unfoldable pub month_from_abbrev : Str → Option ℕ
month_from_abbrev m = position_from 1 m months

abbrev era_of : ℤ → ℤ
era_of (pos y) = quotient (pos y) 400
era_of (negsuc y) = quotient (negsuc y +ℤ negative (pos 399)) 400

unfoldable pub days_from_civil : ℤ → ℕ → ℕ → ℤ
days_from_civil year m d =
    let y = if leb m 2 then year +ℤ negsuc 0 else year in
    let era = era_of y in
    let yoe = y +ℤ negative (times era 400) in
    let doy = (153 * (if ltb 2 m then m - 3 else m + 9) + 2) / 5 + d - 1 in
    let doe = times yoe 365 +ℤ quotient yoe 4 +ℤ negative (quotient yoe 100) +ℤ pos doy in
    times era 146097 +ℤ doe +ℤ negative (pos 719468)

abbrev ofs {ℓ} : {A B : Type ℓ} → Option A → (A → Option B) → Option B
ofs none k = none
ofs (some a) k = k a

abbrev is_named : Option Str → Str → Bool
is_named none s = false
is_named (some n) s = str_eq n s

-- what follows the reading of the six fields
unfoldable pub seconds_of : Str → ℕ → ℕ → ℕ → ℕ → ℕ → ℕ → Option ℤ
unfolding days_in_month days_from_civil day_name_for
seconds_of day_name day month year hh mm ss =
    let days = days_from_civil (pos year) month day in
    let seconds = times days 86400 +ℤ pos (hh * 3600) +ℤ pos (mm * 60) +ℤ pos ss in
    if day == 0 || ltb (days_in_month year month) day || ltb 23 hh || ltb 59 mm || ltb 59 ss
    then none
    else if not (is_named (day_name_for days) day_name)
    then none
    else some seconds

-- the 29 characters, by their positions
unfoldable pub parse_fields : Str → Option ℤ
unfolding two_digits four_digits month_from_abbrev seconds_of
parse_fields
      (n0 ∷ n1 ∷ n2 ∷ c3 ∷ c4 ∷ d5 ∷ d6 ∷ c7 ∷ m8 ∷ m9 ∷ m10 ∷ c11 ∷ y12 ∷ y13 ∷ y14 ∷ y15 ∷ c16
        ∷ h17 ∷ h18 ∷ c19 ∷ i20 ∷ i21 ∷ c22 ∷ s23 ∷ s24 ∷ c25 ∷ c26 ∷ c27 ∷ c28 ∷ []) =
    let fields = ofs (two_digits d5 d6) (λ day.
      ofs (month_from_abbrev (m8 ∷ m9 ∷ m10 ∷ [])) (λ month.
        ofs (four_digits 0 (y12 ∷ y13 ∷ y14 ∷ y15 ∷ [])) (λ year. ofs (two_digits h17 h18) (λ hh.
          ofs (two_digits i20 i21) (λ mm.
            ofs (two_digits s23 s24)
              (λ ss. seconds_of (n0 ∷ n1 ∷ n2 ∷ []) day month year hh mm ss)))))) in
    if str_eq (c3 ∷ c4 ∷ []) (codes ", ")
      && c7 == b' '
      && c11 == b' '
      && c16 == b' '
      && c19 == b':'
      && c22 == b':'
      && str_eq (c25 ∷ c26 ∷ c27 ∷ c28 ∷ []) (codes " GMT")
    then fields
    else none
parse_fields _ = none

unfoldable pub parse_http_date : Str → Option ℤ
unfolding parse_fields
parse_http_date value = let v = trim value in if not (all is_ascii v) then none else parse_fields v
