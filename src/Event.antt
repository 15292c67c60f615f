-- ===== src/Event.antt =====
-- modules/types/include/bitscrape/types/event_types.hpp and the event module. An event has the
-- class that it was made with, by which the code finds handlers, as a number; its enumerated type is
-- the enumerator's value. `event_class` is typeid(Event), an abstract class.
pub mod Filter
pub mod Bus
pub mod Processor
pub mod AsyncProcessor
pub mod Adapter
pub mod Tests
use dht_hunter.Base.{ℕ, List}

pub record Event : Type 0 where
  pub class : ℕ
  pub type : ℕ
  pub custom_type_id : ℕ
  pub timestamp : ℕ
  pub content : List ℕ

abbrev pub event_class : ℕ
event_class = 0
