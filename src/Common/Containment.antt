-- ===== src/Common/Containment.antt =====
-- A text that stands inside another: the joins that keep a part visible.
use mathlib.Core.Path.{refl, sym, ◌∙◌, ap}
use mathlib.Core.Logic.{inl, inr}
use mathlib.Core.List.{List, [], ◌∷◌, ◌++◌, append_assoc, append-nil}
use atlas_knowledge.Common.Lists.{Occurs}
use atlas_knowledge.Common.Texts.{Text, join, Contains}

pub Contains-self : (t : Text) → Contains t t
Contains-self t = ([], [], sym (append-nil t))

pub Contains-nil : (t : Text) → Contains t []
Contains-nil t = ([], t, refl)

pub Contains-append_left : (s t part : Text) → Contains t part → Contains (s ++ t) part
Contains-append_left s t part (a, b, e) =
    (s ++ a, b, ap (λ x. s ++ x) e ∙ sym (append_assoc s a (part ++ b)))

pub Contains-append_right : (s t part : Text) → Contains s part → Contains (s ++ t) part
Contains-append_right s t part (a, b, e) = (a, b ++ t, ap (λ x. x ++ t) e ∙ simp append_assoc)

pub Contains-trans : (s t part : Text) → Contains s t → Contains t part → Contains s part
Contains-trans s t part (a, b, e) h =
    let (c, d, f) = Contains-append_left a (t ++ b) part (Contains-append_right t b part h) in
    (c, d, e ∙ f)

-- Every text of a list stands in the join.
pub Contains-join :
    (sep : Text) (ts : List Text) (part : Text) → Occurs part ts → Contains (join sep ts) part
unfolding join
Contains-join sep [] part h = elim h [ ]
Contains-join sep (t ∷ []) part (inl e) = rw e (Contains-self t)
Contains-join sep (t ∷ []) part (inr h) = elim h [ ]
Contains-join sep (t ∷ u ∷ ts) part (inl e) =
    rw e (Contains-append_right t (sep ++ join sep (u ∷ ts)) t (Contains-self t))
Contains-join sep (t ∷ u ∷ ts) part (inr h) =
    Contains-append_left t (sep ++ join sep (u ∷ ts)) part
      (Contains-append_left sep (join sep (u ∷ ts)) part (Contains-join sep (u ∷ ts) part h))
