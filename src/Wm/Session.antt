-- ===== src/Wm/Session.antt =====
-- The window manager from its start on: `main` of user/apps/wm/wm.c with the messages that its loop reads.
use acky.Base.{ℕ, ◌≤◌, ◌≡◌, List, [], ◌∷◌, text}
use acky.Wm.{Window, Wm, max_windows_count}
use acky.Wm.Pointer.{Colour, mouse_moved, OnScreen}
use acky.Wm.Request.{DrawReq, WindowDesc, draw_requested, window_requested}
use acky.Wm.Start.{unplaced, opened, Opening, draws, serial_print}

-- A message by its signature; `bg` is what the kernel answered when the pixels below the pointer were
-- read, and `before` what lies in front of the array of the windows.
pub data Message : Type 0 where
  moumov : (bg : ℕ → Colour) → (dx dy status : ℕ) → Message
  dreq : (from_pid : ℕ) → DrawReq → Message
  cwin : (before : Window) → (from_pid : ℕ) → WindowDesc → Message
  unknown : Message

-- One round of the loop in which `popMsg` finds a message.
unfoldable pub receive : (font pointer : ℕ → ℕ) → Message → Wm → Wm × Opening
receive font pointer (moumov bg dx dy status) s =
    let (s', calls) = mouse_moved font pointer bg dx dy status s in (s', draws calls)
receive font pointer (dreq from_pid req) s = (s, draws (draw_requested from_pid req s))
receive font pointer (cwin before from_pid win) s =
    let (s', calls) = window_requested font before from_pid win s in (s', draws calls)
receive font pointer unknown s = (s, serial_print (text "Unknown message received\n"))

-- The rounds for the messages in their order.
unfoldable pub receive_all : (font pointer : ℕ → ℕ) → List Message → Wm → Wm × List Opening
unfolding receive
receive_all font pointer [] s = (s, [])
receive_all font pointer (msg ∷ msgs) s =
    let (s', call) = receive font pointer msg s in
    let (s'', calls) = receive_all font pointer msgs s' in (s'', call ∷ calls)

-- The pointer is on the screen, and the table holds the first two windows, wherever they have been moved, and
-- never more than fit.
pub record IsSound (s : Wm) : Type 0 where
  pub pointer : OnScreen s
  pub first-le : 2 ≤ s.window_count
  pub count-le : s.window_count ≤ max_windows_count
  pub first : unplaced (s.windows 0) ≡ opened (text "Test Window") 400 200
  pub second : unplaced (s.windows 1) ≡ opened (text "UwU") 200 100
