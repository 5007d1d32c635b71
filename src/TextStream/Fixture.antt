-- ===== src/TextStream/Fixture.antt =====
-- A concrete `apr_snprintf` and a stream, for the tests of the text modules.
use unimrcp.Prelude.{ℕ, ◌-◌, false, [], take, replicate, arith, length-take, take_all}
use unimrcp.HeaderSection.{Str}
use unimrcp.TextStream.{TextStream}
use unimrcp.TextStream.Decimal.{decimal}
use unimrcp.TextStream.Insert.{Prints}

-- The print, cut to leave room for its NUL.
abbrev pub print_cut : ℕ → ℕ → Str
print_cut room n = take (room - 1) (decimal n)

pub print_cut-Prints : Prints print_cut
print_cut-Prints = record {
  fits = λ room n h. take_all (room - 1) (decimal n) (omega arith);
  bounded = λ room n h. omega (arith, length-take (room - 1) (decimal n));
}

-- An empty stream over a buffer of a size.
abbrev pub buffer : ℕ → TextStream
buffer size = record { before = []; rest = replicate size 0; beyond = []; is_eos = false }
