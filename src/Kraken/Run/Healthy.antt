-- ===== src/Kraken/Run/Healthy.antt =====
-- The states that a Kraken client reaches.
use cryptomeria.Common.{ℕ, true, false, String, ◌≡◌, refl, ap, Bool-cases, inl, inr}
use cryptomeria.Float.{Float, IsLawful}
use cryptomeria.Book.Invariant.{IsValid, new-IsValid, process_msg-IsValid}
use cryptomeria.Persistence.{Ingress}
use cryptomeria.Client.{Client, Clock, Numerals, key_of, lob_filter}
use cryptomeria.Client.Settings.{settings}
use cryptomeria.Client.Marks.{marks_of, settings-set_active, marks_of-set_active}
use cryptomeria.Okx.Types.{is_present}
use cryptomeria.Kraken.Types.{KrakenWsMessage, message_type}
use cryptomeria.Kraken.Lob.{process_msg, format, parse_levels}
use cryptomeria.Kraken.Client.{Serde, Link, on_message}
use cryptomeria.Kraken.Run.{Reading, kraken, link_of}
use cryptomeria.Kraken.Run.Marks.{
  settings-on_message, marks_of-on_message, order_book-on_message, is_book,
}
use cryptomeria.Connection.{Machine, start, Reach}
use cryptomeria.Connection.Healthy.{Keeps, IsHealthy, Reach-IsHealthy}

abbrev pub BookIsValid {ℓ} : {F : Type ℓ} ⦃f : Float F⦄ → Reading F → Type 0
BookIsValid r = IsValid r.order_book

module _ {ℓ κ μ ν} {F : Type ℓ} {V : Type κ} {S : Type μ} {B : Type ν} ⦃f : Float F⦄
    (lawful : IsLawful F) (show_u32 : ℕ → String) (serde : Serde F V) (questdb : Ingress S B F)
    (numerals : Numerals F) where
  on_message-IsValid :
      (clock : Clock) (msg : KrakenWsMessage V) (link : Link F S)
      → IsValid link.order_book
      → IsValid (on_message serde numerals questdb clock msg link).order_book
  unfolding process_msg
  on_message-IsValid clock msg link v =
      rw (order_book-on_message serde numerals questdb clock msg link)
        (elim (Bool-cases (is_book (message_type msg))) [
          | inl e ↦ rw e (
              process_msg-IsValid format lawful.preorder (parse_levels serde.json) link.order_book
                msg.items msg.msg_type (lob_filter link.client) v)
          | inr e ↦ rw e v
        ])

  pub kraken-Keeps : Keeps (kraken show_u32 serde questdb numerals) BookIsValid
  kraken-Keeps = record {
    begin_well = λ instant. new-IsValid;
    handle_well = λ clock msg client b.
        on_message-IsValid clock msg (link_of show_u32 serde questdb numerals (client, b));
    handle_settings = λ clock msg client b.
        settings-on_message serde numerals questdb clock msg
          (link_of show_u32 serde questdb numerals (client, b));
    handle_marks = λ key clock msg client b.
        marks_of-on_message serde numerals questdb key clock msg
          (link_of show_u32 serde questdb numerals (client, b));
    refused_settings = λ now n client. settings-set_active now false _ client;
    refused_present = λ now n client h. ap is_present (marks_of-set_active now false _ client h);
  }

  -- If the prices are lawful and the client has an entry in the status map, then in every state that
  -- a Kraken client reaches it has its entry and its settings, and while it reads, its count of attempts
  -- is 0, its status is active and names the subscription, and its book is valid.
  pub Reach-kraken :
      (client : Client F S) (m : Machine F S (Reading F))
      → is_present (marks_of (key_of client) client) ≡ true
      → Reach show_u32 (kraken show_u32 serde questdb numerals) (start client) m
      → IsHealthy (kraken show_u32 serde questdb numerals) BookIsValid (settings client) m
  Reach-kraken client m entry r =
      Reach-IsHealthy show_u32 (kraken show_u32 serde questdb numerals) BookIsValid kraken-Keeps
        (settings client) r ((refl, entry), tt)
