-- ===== src/State/Event/Order.antt =====
-- The order of `sortEvents` is a strict weak order.
use dhcp_lease_observer.Prelude.{◌≡◌, true, false, arith, IsOrder}
use dhcp_lease_observer.Text.{bytes_eq, bytes_beq_iff}
use dhcp_lease_observer.Text.Order.{bytes_less-asym, bytes_less_trans, bytes_less-total}
use dhcp_lease_observer.State.Event.{Event, event_less, type_text}

event_less-asym : (a b : Event) → event_less a b ≡ true → event_less b a ≡ false
unfolding event_less
event_less-asym a b h = ground (
  arith,
  bytes_beq_iff a.device_id b.device_id,
  bytes_beq_iff b.device_id a.device_id,
  bytes_less-asym a.device_id b.device_id,
  bytes_less-asym (type_text a.type) (type_text b.type),
)

event_less_trans :
    (a b c : Event) → event_less b a ≡ false → event_less c b ≡ false → event_less c a ≡ false
unfolding event_less
event_less_trans a b c h k = ground (
  arith,
  bytes_beq_iff b.device_id a.device_id,
  bytes_beq_iff c.device_id b.device_id,
  bytes_beq_iff c.device_id a.device_id,
  bytes_less_trans a.device_id b.device_id c.device_id,
  bytes_less-total a.device_id b.device_id,
  bytes_less-total b.device_id a.device_id,
  bytes_less_trans (type_text a.type) (type_text b.type) (type_text c.type),
)

pub event_less-IsOrder : IsOrder event_less
event_less-IsOrder = record { asym = event_less-asym; trans = event_less_trans }
