-- ===== src/Hist/Listed.antt =====
-- An instance of the `hdrhistogram` interface that has the documented behaviour: a range and the
-- values recorded in it. Witnesses are evaluated in it.
use correctness_bench.Common.{
  ℕ, refl, Option, none, some, List, [], ◌∷◌, ◌++◌, arith, length, length-append, leb,
  if◌then◌else◌,
}
use correctness_bench.Hist.Library.{Hdr, IsHdr}

pub record Listed : Type 0 where
  pub top : ℕ
  pub values : List ℕ

-- `0` for the empty histogram, or else its greatest value, which stands for every quantile
abbrev greatest : List ℕ → ℕ
greatest [] = 0
greatest (v ∷ vs) = let m = greatest vs in if leb m v then v else m

abbrev pub of_bytes : List ℕ → Option Listed
of_bytes [] = none
of_bytes (t ∷ vs) = some (record { top = t; values = vs })

instance abbrev pub listed_hdr : Hdr Listed
listed_hdr = record {
  new_with_bounds = λ lo hi sig. record { top = hi; values = [] };
  record_value = λ g v. if leb v g.top then record g { values = v ∷ g.values } else g;
  add = λ g k. if leb k.top g.top then some (record g { values = g.values ++ k.values }) else none;
  serialize = λ g. g.top ∷ g.values;
  deserialize = of_bytes;
  value_at_quantile = λ g q. greatest g.values;
  len = λ g. length g.values;
  max = λ g. greatest g.values;
  limit = λ g. g.top;
}

pub Listed-IsHdr : IsHdr Listed
Listed-IsHdr = record {
  limit-new = λ lo hi sig. omega arith;
  len-new = λ lo hi sig. refl;
  limit-record = λ g v. ground arith;
  len-record = λ g v h k. ground arith;
  len-add = λ g k h l. ground (arith, length-append g.values k.values);
  limit-add = λ g k h. ground arith;
  add_fits = λ g k h. (record g { values = g.values ++ k.values }, ground arith);
  deserialize-serialize = λ g. refl;
  serialize-cons = λ g. (g.top, g.values, refl);
}
