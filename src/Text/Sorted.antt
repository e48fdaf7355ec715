-- ===== src/Text/Sorted.antt =====
-- sorted(ts) for lists of texts, and the order of texts.
use mathlib.Core.List.{Perm, Permᴰ}
use mathlib.Core.Logic.{∥∥₁_elim}
use provable_ai.Base.{List, ◌∷◌, ◌∷◌, ◌≡◌, [], if◌then◌else◌, arith, false, true, refl, ◌∙◌}
use provable_ai.Text.{text_leb, Text}

pub text_leb-total : (a b : Text) → text_leb a b ≡ false → text_leb b a ≡ true
unfolding text_leb
text_leb-total [] b h = cc
text_leb-total (x ∷ a) [] h = refl
text_leb-total (x ∷ a) (y ∷ b) h = ground (arith, text_leb-total a b)

pub text_leb-antisym : (a b : Text) → text_leb a b ≡ true → text_leb b a ≡ true → a ≡ b
unfolding text_leb
text_leb-antisym [] [] h k = refl
text_leb-antisym [] (y ∷ b) h k = cc
text_leb-antisym (x ∷ a) [] h k = cc
text_leb-antisym (x ∷ a) (y ∷ b) h k = ground (arith, text_leb-antisym a b)

pub text_leb_trans :
    (a b c : Text) → text_leb a b ≡ true → text_leb b c ≡ true → text_leb a c ≡ true
unfolding text_leb
text_leb_trans [] b c h k = refl
text_leb_trans (x ∷ a) [] c h k = cc
text_leb_trans (x ∷ a) (y ∷ b) [] h k = cc
text_leb_trans (x ∷ a) (y ∷ b) (z ∷ c) h k = ground (arith, text_leb_trans a b c)

unfoldable pub insert_text : Text → List Text → List Text
insert_text t [] = t ∷ []
insert_text t (u ∷ us) = if text_leb t u then t ∷ u ∷ us else u ∷ insert_text t us

unfoldable pub sort_texts : List Text → List Text
sort_texts [] = []
sort_texts (t ∷ ts) = insert_text t (sort_texts ts)

insert_text_comm :
    (s t : Text) (us : List Text)
    → insert_text s (insert_text t us) ≡ insert_text t (insert_text s us)
unfolding insert_text
insert_text_comm s t [] = ground (arith, text_leb-total s t, text_leb-antisym s t)
insert_text_comm s t (u ∷ us) = ground (
  arith,
  insert_text_comm s t us,
  text_leb-total s t,
  text_leb-antisym s t,
  text_leb_trans s t u,
  text_leb_trans t s u,
  text_leb-total s u,
  text_leb-total t u,
)

sort_texts-Permᴰ : {ts us : List Text} → Permᴰ ts us → sort_texts ts ≡ sort_texts us
unfolding sort_texts
sort_texts-Permᴰ Permᴰ.nil = refl
sort_texts-Permᴰ (Permᴰ.cons e p) = cc (e, sort_texts-Permᴰ p)
sort_texts-Permᴰ (Permᴰ.swap {a = a} {b = b} {l = l} e f) =
    rw e (rw f (insert_text_comm _ _ (sort_texts l)))
sort_texts-Permᴰ (Permᴰ.trans p q) = sort_texts-Permᴰ p ∙ sort_texts-Permᴰ q

texts_IsSet : IsSet (List Text)
texts_IsSet = hlevel

-- Sorting forgets the order.
pub sort_texts-Perm : {ts us : List Text} → Perm ts us → sort_texts ts ≡ sort_texts us
sort_texts-Perm {ts} {us} p =
    ∥∥₁_elim p (texts_IsSet (sort_texts ts) (sort_texts us)) sort_texts-Permᴰ

pub text_leb_refl : (t : Text) → text_leb t t ≡ true
unfolding text_leb
text_leb_refl [] = refl
text_leb_refl (x ∷ t) = ground (arith, text_leb_refl t)
