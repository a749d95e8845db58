-- ===== src/Text/Order.antt =====
-- The order of strings is a strict weak order, and total.
use dhcp_lease_observer.Prelude.{◌≡◌, refl, true, false, [], ◌∷◌, arith, IsOrder}
use dhcp_lease_observer.Text.{Bytes, bytes_less}

pub bytes_less-asym : (a b : Bytes) → bytes_less a b ≡ true → bytes_less b a ≡ false
unfolding bytes_less
bytes_less-asym [] [] h = refl
bytes_less-asym [] (y ∷ b) h = refl
bytes_less-asym (x ∷ a) [] h = cc
bytes_less-asym (x ∷ a) (y ∷ b) h = ground (arith, bytes_less-asym a b)

pub bytes_less_trans :
    (a b c : Bytes) → bytes_less b a ≡ false → bytes_less c b ≡ false → bytes_less c a ≡ false
unfolding bytes_less
bytes_less_trans [] b [] h k = refl
bytes_less_trans [] b (z ∷ c) h k = refl
bytes_less_trans (x ∷ a) [] c h k = cc
bytes_less_trans (x ∷ a) (y ∷ b) [] h k = cc
bytes_less_trans (x ∷ a) (y ∷ b) (z ∷ c) h k = ground (arith, bytes_less_trans a b c)

pub bytes_less-total : (a b : Bytes) → bytes_less a b ≡ false → bytes_less b a ≡ false → a ≡ b
unfolding bytes_less
bytes_less-total [] [] h k = refl
bytes_less-total [] (y ∷ b) h k = cc
bytes_less-total (x ∷ a) [] h k = cc
bytes_less-total (x ∷ a) (y ∷ b) h k = ground (arith, bytes_less-total a b)

pub bytes_less-IsOrder : IsOrder bytes_less
bytes_less-IsOrder = record { asym = bytes_less-asym; trans = bytes_less_trans }
