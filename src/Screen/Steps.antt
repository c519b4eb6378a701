-- ===== src/Screen/Steps.antt =====
-- The runs of the page: a user acts, and the requests in flight are answered in any order.
use league_table.Prelude.{◌≡◌, true, List, [], ◌++◌, Take}
use league_table.Screen.Types.{LoginClass, Screen, Request, new_screen}
use league_table.Screen.Handlers.{Event}
use league_table.Screen.Events.{handle, is_offered}
use league_table.Screen.Answers.{Answer, Reply, answered, mounted}

pub record Page (V : Type 0) : Type 0 where
  pub screen : Screen V
  pub in_flight : List Request

module _ {V : Type 0} where
  abbrev pub acted : Event → Page V → Page V
  unfolding handle
  acted e p =
      let (screen, requests) = handle e p.screen in
      record { screen = screen; in_flight = requests ++ p.in_flight }

  abbrev pub received : (r : Request) → Answer (Reply V r) → List Request → Page V → Page V
  unfolding answered
  received r a rest p =
      let (screen, requests) = answered r a p.screen in
      record { screen = screen; in_flight = requests ++ rest }

  pub data Step (p : Page V) : Page V → Type 0 where
    act : (e : Event) → is_offered p.screen e ≡ true → Step p (acted e p)
    answer :
        (r : Request) (a : Answer (Reply V r)) (rest : List Request)
        → Take r p.in_flight rest
        → Step p (received r a rest p)

  -- the page once the login options have been answered
  abbrev pub opened_page : Answer (List LoginClass) → Page V
  unfolding mounted
  opened_page a = record { screen = mounted a new_screen; in_flight = [] }
