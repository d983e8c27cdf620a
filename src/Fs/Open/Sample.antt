-- ===== src/Fs/Open/Sample.antt =====
-- A file that openat opens in the small state, for the tests.
use modos.Base.{ℕ, inr, refl, arith, []}
use modos.Fs.{World}
use modos.Fs.Sample.{sample, sample_calls}
use modos.Fs.Open.Fd.{IsDense}
use modos.Fs.Open.Reached.{Reaches, Accepts, walked}
use modos.Fs.Walk.Mount.{Nearest}
use modos.Fs.Walk.Whole.{HasCopy, Leads}
use modos.Mm.Arena

-- The root, opened by the empty path.
abbrev pub root_file : ℕ
root_file = 0xFFFF_FFFF_0000_0100

abbrev pub opened : World
opened = walked 0 0x200 0x100 7 sample

root-HasCopy : HasCopy sample 0x200 []
unfolding Arena.kmalloc
root-HasCopy = record {
  given = omega arith;
  string = refl;
  file = omega arith;
  block = omega arith;
  apart = inr (omega arith);
  ends = refl;
}

pub root-Reaches : Reaches sample_calls sample 0x100 0x200 opened
root-Reaches = record {
  s = [];
  node = 0x100;
  depth = 0;
  mount = 7;
  copy = root-HasCopy;
  leads = Leads.empty;
  nearest = Nearest.here 0x100 (omega arith) refl;
  vnode = omega arith;
  fops = omega arith;
  accepts = Accepts.no_open refl;
}

pub opened-IsDense : IsDense opened
opened-IsDense = record { used = λ j lt. absurd (omega (arith, lt)); free = λ j le. refl }
