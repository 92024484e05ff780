-- ===== src/Time/Names.antt =====
-- The names of the days and months.
use libstappler_common.Common.{ℕ, zero, suc, ◌<◌, ◌≡◌, refl, arith, true, [], ◌∷◌, some}
use libstappler_common.Time.Calendar.{element}
use libstappler_common.Time.Mask.{isupper, islower}
use libstappler_common.Time.Read.{letters, s_months, month_from}
use libstappler_common.Time.Print.{sp_day_snames, sp_month_snames}

-- A capital and two small letters.
abbrev pub IsName : ℕ → ℕ → ℕ → Type 0
IsName a b c = (isupper a ≡ true) × (islower b ≡ true) × (islower c ≡ true)

pub day_IsName :
    (w : ℕ)
    → w < 7
    → (a : ℕ) × (b : ℕ) × (c : ℕ) × (element sp_day_snames w ≡ some (a ∷ b ∷ c ∷ [])) × IsName a b c
unfolding isupper islower
day_IsName zero h = (0x53, 0x75, 0x6e, refl, (refl, refl, refl))
day_IsName (suc zero) h = (0x4d, 0x6f, 0x6e, refl, (refl, refl, refl))
day_IsName (suc (suc zero)) h = (0x54, 0x75, 0x65, refl, (refl, refl, refl))
day_IsName (suc (suc (suc zero))) h = (0x57, 0x65, 0x64, refl, (refl, refl, refl))
day_IsName (suc (suc (suc (suc zero)))) h = (0x54, 0x68, 0x75, refl, (refl, refl, refl))
day_IsName (suc (suc (suc (suc (suc zero))))) h = (0x46, 0x72, 0x69, refl, (refl, refl, refl))
day_IsName (suc (suc (suc (suc (suc (suc zero)))))) h = (0x53, 0x61, 0x74, refl, (refl, refl, refl))
day_IsName (suc (suc (suc (suc (suc (suc (suc m))))))) h = absurd (omega arith)

pub month_IsName :
    (m : ℕ)
    → m < 12
    → (a : ℕ) × (b : ℕ) × (c : ℕ) × (element sp_month_snames m ≡ some (a ∷ b ∷ c ∷ []))
      × IsName a b c
      × (month_from (letters a b c) 0 s_months ≡ m)
unfolding isupper islower month_from s_months
month_IsName zero h = (0x4a, 0x61, 0x6e, refl, (refl, refl, refl), refl)
month_IsName (suc zero) h = (0x46, 0x65, 0x62, refl, (refl, refl, refl), refl)
month_IsName (suc (suc zero)) h = (0x4d, 0x61, 0x72, refl, (refl, refl, refl), refl)
month_IsName (suc (suc (suc zero))) h = (0x41, 0x70, 0x72, refl, (refl, refl, refl), refl)
month_IsName (suc (suc (suc (suc zero)))) h = (0x4d, 0x61, 0x79, refl, (refl, refl, refl), refl)
month_IsName (suc (suc (suc (suc (suc zero))))) h =
    (0x4a, 0x75, 0x6e, refl, (refl, refl, refl), refl)
month_IsName (suc (suc (suc (suc (suc (suc zero)))))) h =
    (0x4a, 0x75, 0x6c, refl, (refl, refl, refl), refl)
month_IsName (suc (suc (suc (suc (suc (suc (suc zero))))))) h =
    (0x41, 0x75, 0x67, refl, (refl, refl, refl), refl)
month_IsName (suc (suc (suc (suc (suc (suc (suc (suc zero)))))))) h =
    (0x53, 0x65, 0x70, refl, (refl, refl, refl), refl)
month_IsName (suc (suc (suc (suc (suc (suc (suc (suc (suc zero))))))))) h =
    (0x4f, 0x63, 0x74, refl, (refl, refl, refl), refl)
month_IsName (suc (suc (suc (suc (suc (suc (suc (suc (suc (suc zero)))))))))) h =
    (0x4e, 0x6f, 0x76, refl, (refl, refl, refl), refl)
month_IsName (suc (suc (suc (suc (suc (suc (suc (suc (suc (suc (suc zero))))))))))) h =
    (0x44, 0x65, 0x63, refl, (refl, refl, refl), refl)
month_IsName (suc (suc (suc (suc (suc (suc (suc (suc (suc (suc (suc (suc m)))))))))))) h =
    absurd (omega arith)
