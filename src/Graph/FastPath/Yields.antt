-- ===== src/Graph/FastPath/Yields.antt =====
-- What it means that a channel yields objects, and the channel of what is delivered.
use mongopenfga.Prelude.{
  ℕ, suc, ◌≡◌, refl, ◌∙◌, sym, subst, ap, Bool, true, false, inl, inr, Bool-cases, List, [], ◌∷◌,
  Text, is_key, length, All, arith, text_eq,
}
use mongopenfga.Tuple.{is_valid_object}
use mongopenfga.Storage.Iterators.Defs.{answer, failure}
use mongopenfga.Graph.Outcome.{CheckError}
use mongopenfga.Graph.FastPath.Stream.{Msg, Stream}
use mongopenfga.Graph.FastPath.Merge.{Sent}
use mongopenfga.Graph.FastPath.Good.{IsClean, IsGood, contents, left, any_left}
use mongopenfga.Graph.FastPath.Advance.{Ascends, IsTidy}
use mongopenfga.Graph.FastPath.Deliver.{Delivers}
use mongopenfga.Graph.FastPath.Rewrite.{Channel, streams_from, sent}

-- messages without an error, whose texts are objects in strictly ascending order
abbrev pub IsSorted : List (Msg CheckError) → Type 0
IsSorted ms = IsClean ms × IsTidy (contents ms)

-- the channel ends without an error, and has the objects that pass the test, strictly ascending
abbrev pub Yields : Channel → (Text → Bool) → Type 0
Yields channel test =
    (ms : List (Msg CheckError)) × (channel ≡ answer ms)
    × IsSorted ms
    × ((x : Text) → is_key x (contents ms) ≡ test x)

abbrev pub has_object : Channel → Text → Bool
has_object (failure e) x = false
has_object (answer ms) x = is_key x (contents ms)

-- the streams of the children
abbrev pub AreGood : List (Stream CheckError) → Type 0
AreGood streams = All IsGood streams × All (λ s. IsTidy (left s)) streams

pub new_streams :
    (idx : ℕ) (chans : List (List (Msg CheckError)))
    → All IsSorted chans
    → AreGood (streams_from idx chans)
new_streams idx [] s = (tt, tt)
new_streams idx (c ∷ chans) s =
    let (g, t) = new_streams (suc idx) chans s.1 in
    (((tt, s.0.0, λ h. absurd (ground (arith, h))), g), (s.0.1, t))

length-streams_from :
    (idx : ℕ) (chans : List (List (Msg CheckError)))
    → length (streams_from idx chans) ≡ length chans
length-streams_from idx [] = refl
length-streams_from idx (c ∷ chans) = ap suc (length-streams_from (suc idx) chans)

pub any_left-object :
    (x : Text) (streams : List (Stream CheckError))
    → All (λ s. IsTidy (left s)) streams
    → any_left x streams ≡ true
    → is_valid_object x ≡ true
any_left-object x [] t k = absurd (ground (arith, k))
any_left-object x (s ∷ streams) t k = elim (Bool-cases (is_key x (left s))) [
  | inl y ↦ t.0.1 x y
  | inr n ↦ any_left-object x streams t.1 (ground (arith, k, n))
]

pub delivered :
    (s : Sent CheckError) (out : List Text) (test : Text → Bool)
    → Delivers s out
    → Ascends out
    → ((x : Text) → is_key x out ≡ test x)
    → ((x : Text) → test x ≡ true → is_valid_object x ≡ true)
    → Yields (sent s) test
delivered s out test (ms, e, c, m) a k v = (
  ms,
  ap sent e,
  (c, subst IsTidy (sym m) (a, λ y h. v y (sym (k y) ∙ h))),
  λ x. ap (is_key x) m ∙ k x,
)
