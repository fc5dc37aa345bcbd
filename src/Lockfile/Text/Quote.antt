-- ===== src/Lockfile/Text/Quote.antt =====
-- `unquote` undoes `quote`, for every text.
use cppup.Base.{ℕ, false, [], ◌∷◌, ◌++◌, ◌≡◌, refl, arith, Bytes, is_empty, ok, ◌∙◌, ap}
use cppup.Lockfile.Text.{
  quote_mark, escape, quote_rest, quote, back, unquote_loop, unquote, trim_back,
}
use cppup.Lockfile.Text.Trim.{trim_back-append}

pub is_empty-quote_rest : (v : Bytes) → is_empty (quote_rest v) ≡ false
unfolding quote_rest escape
is_empty-quote_rest [] = refl
is_empty-quote_rest (c ∷ v) = ground arith

back-escape : (b c : ℕ) (t : Bytes) → back b (escape c ++ t) ≡ back c t
unfolding back escape
back-escape b c t = ground arith

pub back-quote_rest : (c : ℕ) (v : Bytes) → back c (quote_rest v) ≡ quote_mark
unfolding quote_rest
back-quote_rest c [] = unfold back in refl
back-quote_rest c (d ∷ v) = back-escape c d (quote_rest v) ∙ back-quote_rest d v

unquote_loop-escape :
    (c : ℕ) (t : Bytes) → is_empty t ≡ false → unquote_loop (escape c ++ t) ≡ c ∷ unquote_loop t
unfolding unquote_loop escape
unquote_loop-escape c [] h = ground arith
unquote_loop-escape c (d ∷ t) h = ground arith

pub unquote_loop-quote_rest : (v : Bytes) → unquote_loop (quote_rest v) ≡ v
unfolding quote_rest
unquote_loop-quote_rest [] = unfold unquote_loop in refl
unquote_loop-quote_rest (c ∷ v) =
    unquote_loop-escape c (quote_rest v) (is_empty-quote_rest v)
    ∙ ap (◌∷◌ c) (unquote_loop-quote_rest v)

unquote_lem :
    (t : Bytes)
    → is_empty t ≡ false
    → back quote_mark t ≡ quote_mark
    → unquote (quote_mark ∷ t) ≡ ok (unquote_loop t)
unfolding unquote back
unquote_lem [] h e = ground arith
unquote_lem (d ∷ t) h e = ground arith

-- What `quote` writes, `unquote` reads back, whatever bytes the text holds.
pub unquote-quote : (v : Bytes) → unquote (quote v) ≡ ok v
unfolding quote
unquote-quote v =
    unquote_lem (quote_rest v) (is_empty-quote_rest v) (back-quote_rest quote_mark v)
    ∙ ap ok (unquote_loop-quote_rest v)

trim_back-quote_rest : (v : Bytes) → trim_back (quote_rest v) ≡ quote_rest v
unfolding quote_rest
trim_back-quote_rest [] = unfold trim_back in refl
trim_back-quote_rest (c ∷ v) =
    trim_back-append (escape c) (quote_rest v) (is_empty-quote_rest v) (trim_back-quote_rest v)

-- A quoted text has nothing to trim at its end.
pub trim_back-quote : (v : Bytes) → trim_back (quote v) ≡ quote v
unfolding quote
trim_back-quote v =
    trim_back-append (quote_mark ∷ []) (quote_rest v) (is_empty-quote_rest v)
      (trim_back-quote_rest v)
