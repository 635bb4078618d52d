-- ===== src/Bitstamp/Run/Healthy.antt =====
-- The states that a Bitstamp client reaches.
use cryptomeria.Common.{ℕ, true, false, String, ◌≡◌, refl, ap}
use cryptomeria.Float.{Float, IsLawful}
use cryptomeria.Persistence.{Ingress}
use cryptomeria.Client.{Client, Numerals, key_of, lob_filter}
use cryptomeria.Client.Settings.{settings}
use cryptomeria.Client.Marks.{marks_of, settings-set_active, marks_of-set_active}
use cryptomeria.Okx.Types.{is_present}
use cryptomeria.Bitstamp.Channels.{Letters}
use cryptomeria.Bitstamp.Lob.{Layout, with_snapshot_depth}
use cryptomeria.Bitstamp.Invariant.{IsValid}
use cryptomeria.Bitstamp.Session.Replay.{on_message-IsValid}
use cryptomeria.Bitstamp.Client
use cryptomeria.Bitstamp.Client.Follows.{settings-on_message, session-on_message}
use cryptomeria.Bitstamp.Run.{Reading, bitstamp, link_of}
use cryptomeria.Bitstamp.Run.Marks.{marks_of-on_message}
use cryptomeria.Connection.{Machine, start, Reach}
use cryptomeria.Connection.Healthy.{Keeps, IsHealthy, Reach-IsHealthy}

abbrev pub BookIsValid {ℓ κ} : {F : Type ℓ} {V : Type κ} ⦃f : Float F⦄ → Reading F V → Type 0
BookIsValid r = IsValid r.session.order_book

module _ {ℓ κ μ ν} {F : Type ℓ} {V : Type κ} {S : Type μ} {B : Type ν} ⦃f : Float F⦄
    (lawful : IsLawful F) (show_u32 : ℕ → String) (letters : Letters) (snapshot_depth : ℕ)
    (layouts : ℕ → Layout F) (serdes : Client.Reading F V) (questdb : Ingress S B F)
    (numerals : Numerals F) where
  pub bitstamp-Keeps :
      Keeps (bitstamp show_u32 letters snapshot_depth layouts serdes questdb numerals) BookIsValid
  unfolding with_snapshot_depth
  bitstamp-Keeps = record {
    begin_well = λ instant. record {
      bids_valid = record { ordered = tt; nonzero = tt };
      asks_valid = record { ordered = tt; nonzero = tt };
    };
    handle_well = λ clock (msg, fetched) client b h.
        let link =
          link_of show_u32 letters snapshot_depth layouts serdes questdb numerals (client, b) in
        rw (session-on_message serdes questdb numerals clock msg fetched link) (
          on_message-IsValid serdes.serde (lob_filter client) lawful.preorder b.session msg fetched
            h);
    handle_settings = λ clock (msg, fetched) client b.
        settings-on_message serdes questdb numerals clock msg fetched
          (link_of show_u32 letters snapshot_depth layouts serdes questdb numerals (client, b));
    handle_marks = λ key clock (msg, fetched) client b.
        marks_of-on_message serdes questdb numerals key clock msg fetched
          (link_of show_u32 letters snapshot_depth layouts serdes questdb numerals (client, b));
    refused_settings = λ now n client. settings-set_active now false _ client;
    refused_present = λ now n client h. ap is_present (marks_of-set_active now false _ client h);
  }

  -- If the prices are lawful and the client has an entry in the status map, then in every state that
  -- a Bitstamp client reaches it has its entry and its settings, and while it reads, its count of
  -- attempts is 0, its status is active and names the subscription, and its book is valid.
  pub Reach-bitstamp :
      (client : Client F S) (m : Machine F S (Reading F V))
      → is_present (marks_of (key_of client) client) ≡ true
      → Reach show_u32
          (bitstamp show_u32 letters snapshot_depth layouts serdes questdb numerals)
          (start client)
          m
      → IsHealthy
          (bitstamp show_u32 letters snapshot_depth layouts serdes questdb numerals)
          BookIsValid
          (settings client)
          m
  Reach-bitstamp client m entry r =
      Reach-IsHealthy show_u32
        (bitstamp show_u32 letters snapshot_depth layouts serdes questdb numerals) BookIsValid
        bitstamp-Keeps (settings client) r ((refl, entry), tt)
