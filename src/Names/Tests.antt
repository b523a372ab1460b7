-- ===== src/Names/Tests.antt =====
-- `normalize_participant` at concrete names.
use betmaxxing.Prelude.{◌≡◌, refl, false}
use betmaxxing.Names.Defs.{Python, normalize_participant}
use betmaxxing.Table.{select}

abbrev ascii : Python
ascii = record {
  nfkd = λ s. s;
  combining = λ c. false;
  lower = λ s. s;
  strip = λ s. s;
  casefold = λ s. s;
  isoformat = λ n. "";
  str_of = λ n. "";
}

drops_noise : normalize_participant ascii "fc  barcelona--b." ≡ "barcelona-b"
unfolding normalize_participant select
drops_noise = refl

keeps_last : normalize_participant ascii " fc" ≡ "fc"
unfolding normalize_participant select
keeps_last = refl
