-- ===== src/Protocol/Booking.antt =====
-- A maker's fill is booked once, whatever is done to the ring in between.
use fructus.Adapter.Events.Writes.{Writes}
use fructus.Handlers.Runtime.{Runtime}
use fructus.Protocol.{Protocol}
