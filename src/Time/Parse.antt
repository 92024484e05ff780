-- ===== src/Time/Parse.antt =====
-- `sp_time_exp_read_gmt` and `sp_time_exp_t::read`.
use libstappler_common.Common.{
  ◌>>=◌, ℕ, ◌+◌, ◌-◌, ◌*◌, ◌/◌, ◌%◌, ◌&&◌, not, List, [], ◌∷◌, Option, none, some, ◌==◌, ltb,
  if◌then◌else◌, codes, length, take, drop,
}
use libstappler_common.Common.Int.{ℤ, pos}
use libstappler_common.Time.Calendar.{TimeExp, gmt_unset, gmt_local, gmt_set, minus_ℤ}
use libstappler_common.Time.Mask.{checkmask}
use libstappler_common.Time.Read.{
  Numbers, char_at, two_digits, read_year, skip_white, until_space, until_digit, read_digits,
  starts, read_time, check_mon, read_mon,
}

-- `sign * n`
abbrev pub signed : ℕ → ℕ → ℤ
signed sign n = if sign == 0x2d then minus_ℤ 0 n else if sign == 0x2b then pos n else pos 0

-- `sp_time_exp_read_gmt`; the sign is told from the first character each time.
unfoldable pub read_gmt : Numbers → TimeExp → List ℕ → TimeExp
unfolding read_digits
read_gmt numbers t [] = record t { gmtoff = pos 0; gmt_type = gmt_local }
read_gmt numbers t (c ∷ r) =
    let (off1, r1) = read_digits r in
    let (off2, r2) = read_digits r1 in
    let first = numbers.strtoll off1 in
    if (c == 0x47) && (length r == 2) && (char_at r 0 == 0x4d) && (char_at r 1 == 0x54)
    then record t { gmtoff = pos 0; gmt_type = gmt_set }
    else (let gmt_type = if c == 0x5a then gmt_set else t.gmt_type in
        if (length off1 == 2) && starts 0x3a r1
        then (if length off2 == 2
            then record t {
              gmtoff = signed c (first * 60 * 60 + numbers.strtoll off2 * 60);
              gmt_type = gmt_set;
            }
            else record t { gmtoff = pos 0; gmt_type = gmt_type })
        else if length off1 == 4
        then record t {
          gmtoff = signed c (first / 100 * 60 * 60 + first % 100 * 60);
          gmt_type = gmt_set;
        }
        else record t { gmtoff = pos 0; gmt_type = gmt_type })

-- `r.empty() ? "Z" : r`
abbrev pub or_utc : List ℕ → List ℕ
or_utc [] = 0x5a ∷ []
or_utc (c ∷ r) = c ∷ r

abbrev pub checked : TimeExp → Option TimeExp
checked t = if check_mon t then some t else none

-- The fraction of a second, where there is one.
unfoldable pub read_fraction : Numbers → TimeExp → List ℕ → TimeExp × List ℕ
read_fraction numbers t r =
    if starts 0x2e r
    then (let (usec, rest) = numbers.strtod r in (record t { usec = usec }, rest))
    else (t, r)

-- "2011-04-28T06:34:00+09:00"
unfoldable pub read_atom : Numbers → TimeExp → List ℕ → Option TimeExp
unfolding read_year read_time check_mon read_fraction read_gmt
read_atom numbers t r = read_year r 0 >>= λ year.
    read_time (record t { year = year; mon = minus_ℤ (two_digits r 5) 1; mday = two_digits r 8 })
      (take 8 (drop 11 r))
    >>= λ u. checked u >>= λ v.
        (let (w, rest) = read_fraction numbers v (drop 19 r) in
          some (read_gmt numbers w (or_utc rest)))

-- "2011-04-28"
unfoldable pub read_atom_date : Numbers → TimeExp → List ℕ → Option TimeExp
unfolding read_year check_mon read_gmt
read_atom_date numbers t r = read_year r 0 >>= λ year.
    checked (record t { year = year; mon = minus_ℤ (two_digits r 5) 1; mday = two_digits r 8 })
    >>= λ u. some (read_gmt numbers u (or_utc (drop 10 r)))

-- "12.03.2010"
unfoldable pub read_dotted : Numbers → TimeExp → List ℕ → Option TimeExp
unfolding read_year check_mon read_gmt
read_dotted numbers t r = read_year r 6 >>= λ year.
    checked (record t { year = year; mday = two_digits r 0; mon = minus_ℤ (two_digits r 3) 1 })
    >>= λ u. some (read_gmt numbers u (0x5a ∷ []))

-- "Sun Nov  6 08:49:37 1994"
unfoldable pub read_asctime : TimeExp → List ℕ → Option TimeExp
unfolding until_digit read_year read_time read_mon
read_asctime t r =
    let ydate = until_digit (drop 20 r) in
    if ltb (length ydate) 4
    then none
    else (read_year ydate 0 >>= λ year.
        read_time
          (record t {
            year = year;
            mday = if char_at r 8 == 0x20 then char_at r 9 - 0x30 else two_digits r 8;
          })
          (take 8 (drop 11 r))
        >>= λ u. read_mon u (take 3 (drop 4 r)) >>= λ v.
            some (record v { usec = 0; gmtoff = pos 0; gmt_type = gmt_local }))

-- The end of `read` for the formats with a name of a month: the time, the month and the zone.
unfoldable pub read_named : Numbers → TimeExp → List ℕ → List ℕ → List ℕ → Option TimeExp
unfolding read_time read_mon read_gmt
read_named numbers t monstr timstr gmtstr = read_time t timstr >>= λ u. read_mon u monstr >>= λ v.
    elim gmtstr [
      | [] ↦ some (record v { usec = 0; gmtoff = pos 0 })
      | c ∷ r ↦ some (read_gmt numbers (record v { usec = 0 }) (c ∷ r))
    ]

-- "06 Nov 1994 08:49:37 GMT", "6 Nov 1994 08:49:37 GMT" and "06-Nov-94 08:49:37 GMT".
unfoldable pub read_rfc : Numbers → TimeExp → List ℕ → Option TimeExp
unfolding checkmask read_year read_named
read_rfc numbers t r =
    if checkmask r (codes "## @$$ #### ##:##:## *")
    then (read_year r 7 >>= λ year.
        read_named numbers (record t { year = year; mday = two_digits r 0 }) (take 3 (drop 3 r))
          (take 8 (drop 12 r)) (drop 21 r))
    else if checkmask r (codes "# @$$ #### ##:##:## *")
    then (read_year r 6 >>= λ year.
        read_named numbers (record t { year = year; mday = char_at r 0 - 0x30 }) (take 3 (drop 2 r))
          (take 8 (drop 11 r)) (drop 20 r))
    else if checkmask r (codes "##-@$$-## ##:##:## *")
    then (let year = two_digits r 7 in
        read_named numbers
          (record t {
            year = pos (if ltb year 70 then year + 100 else year);
            mday = two_digits r 0;
          })
          (take 3 (drop 3 r)) (take 8 (drop 10 r)) (drop 19 r))
    else none

-- The formats without a space.
unfoldable pub read_numeric : Numbers → TimeExp → List ℕ → Option TimeExp
unfolding checkmask read_atom read_atom_date read_dotted
read_numeric numbers t r =
    if checkmask r (codes "####-##-##T##:##:##*")
    then read_atom numbers t r
    else if checkmask r (codes "####-##-##*")
    then read_atom_date numbers t r
    else if checkmask r (codes "##.##.####")
    then read_dotted numbers t r
    else none

-- `sp_time_exp_t::read`
unfoldable pub read : Numbers → TimeExp → List ℕ → Option TimeExp
unfolding skip_white until_space until_digit read_numeric read_asctime read_rfc checkmask
read numbers t text =
    let r = skip_white text in
    let u = record t { gmt_type = gmt_unset } in
    if length r == 0
    then none
    else if not (starts 0x20 (until_space r))
    then read_numeric numbers u r
    else if checkmask r (codes "@$$ @$$ ~# ##:##:## *")
    then read_asctime u r
    else read_rfc numbers u (until_digit r)
