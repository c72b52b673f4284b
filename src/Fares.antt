-- ===== src/Fares.antt =====
-- internal/fareprovider/provider.go: what a fare provider is asked and what it answers. The handler
-- asks of an error only which of the four sentinels it wraps; any other error is a text. An int is
-- the word that holds it.
pub mod Travelpayouts
pub mod Served
pub mod Fallback
pub mod Durations
pub mod Duffel
pub mod Offers
pub mod Offered
pub mod Stored
use flight_circle_search.Base.{ℕ, Bool, Bytes}

pub data FareError : Type 0 where
  auth invalid_input rate_limited provider_down : FareError
  other : Bytes → FareError

pub record SearchRequest : Type 0 where
  pub origin : Bytes
  pub destination : Bytes
  pub date : Bytes

pub record Fare : Type 0 where
  pub origin : Bytes
  pub destination : Bytes
  pub origin_airport : Bytes
  pub destination_airport : Bytes
  pub airline : Bytes
  pub flight_number : Bytes
  pub departure_at : ℕ
  pub price : ℕ
  pub currency : Bytes
  pub duration : ℕ
  pub transfers : ℕ
  pub link : Bytes
  pub cached : Bool
