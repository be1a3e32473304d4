-- ===== src/Resource/Order.antt =====
-- `chooseObjectMetaWinner` is a strict order on creation times and UIDs, by which the claims of a
-- host are compared.
use kubernetes_ingress.Prelude.{
  ◌≡◌, ◌⊎◌, true, false, arith, str_lt_total, str_lt_asymm, str_lt_neg_trans, str_lt_irrefl,
}
use kubernetes_ingress.Api.{ObjectMeta}
use kubernetes_ingress.Resource.{choose_object_meta_winner}

-- If an object wins against another one, that one does not win against it.
pub winner_asymm :
    (a b : ObjectMeta)
    → choose_object_meta_winner a b ≡ true
    → choose_object_meta_winner b a ≡ false
unfolding choose_object_meta_winner
winner_asymm a b h = ground (arith, str_lt_asymm a.uid b.uid, str_lt_asymm b.uid a.uid)

pub winner_irrefl : (a : ObjectMeta) → choose_object_meta_winner a a ≡ false
unfolding choose_object_meta_winner
winner_irrefl a = ground (arith, str_lt_irrefl a.uid)

-- An object that does not win against a second one, which does not win against a third one, does
-- not win against the third one.
pub winner_neg_trans :
    (a b c : ObjectMeta)
    → choose_object_meta_winner a b ≡ false
    → choose_object_meta_winner b c ≡ false
    → choose_object_meta_winner a c ≡ false
unfolding choose_object_meta_winner
winner_neg_trans a b c h k = ground (arith, str_lt_neg_trans c.uid b.uid a.uid)

-- Of two objects one wins, unless they were created at once and have one UID.
pub winner_total :
    (a b : ObjectMeta)
    → (choose_object_meta_winner a b ≡ true)
      ⊎ ((choose_object_meta_winner b a ≡ true)
          ⊎ ((a.creation_timestamp ≡ b.creation_timestamp) × (a.uid ≡ b.uid)))
unfolding choose_object_meta_winner
winner_total a b = ground (arith, str_lt_total a.uid b.uid)
