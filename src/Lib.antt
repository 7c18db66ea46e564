-- ===== src/Lib.antt =====
-- Acky OS: the kernel Foki under foki/, a 32-bit kernel in C with ring 3 processes in one memory.
--
-- Parts, and how they work together. The block allocator (foki/memory.c) hands out memory in a row
-- and closes the gap when a block is freed; the process table (foki/process.c) gives each process
-- one block and lowers the start addresses with it when a process is killed. The timer interrupt
-- (foki/pit.c) saves the process that runs, asks the table for the next one and points the two
-- descriptors of the local table (foki/gdt.c) at its memory. Processes exchange messages through
-- queues in the table. The interrupt table (foki/idt.c) says which code answers which interrupt.
-- The console (foki/vga.c) prints, and the keyboard interrupt (foki/ps2kbd.c) edits the line that a
-- process reads, in that process' memory and on the screen. The mouse interrupt (foki/ps2mouse.c)
-- sends each packet of the mouse as a message to the process that owns the screen. A process asks for
-- all of this by the interrupt 0x40 (foki/idt.c): the switch of sysCall runs the call whose number is
-- in EAX on the memory that the kernel and the processes share. Programs and files come from the disk
-- (foki/ata.c) through the file system (foki/fs.c). One user program is the window manager
-- (user/apps/wm): it owns the screen, and the graphics calls of the others reach it as messages.
--
-- Files:
--   Base        the names that all use, words of 32 bits, signed numbers, array updates, shifts of an
--               array, and the ways in which the kernel halts.
--   Ram         foki/memory.c: memcpy, memset, strcpy, strcmp, memcmp over a memory of bytes.
--   Alloc       foki/memory.c: memList, allocMem, freeMem, initMem.
--   Process     foki/process.c: the table, createProcessEntry, kill, the scheduler, the queues; and the
--               pop of a message from foki/idt.c.
--   Gdt         foki/gdt.c: setGDTEntry, setLDTEntry, initGDT.
--   Idt         foki/idt.c: setIDTGate, initIDT, PICMap.
--   Faults      foki/faultHandlers.c, foki/herr.c: what an exception does to the processes; Faults/Report
--               has the handlers with all that they print, and herr.
--   Pit         foki/pit.c: PITISR; Pit/Clock: sleep, initPIT.
--   Console     foki/vga.c: printChar, print, clearScr, updateCursorPos, setColorAttribute.
--   Decimal     foki/vga.c: intToStr, and the text of printInt.
--   Keyboard    foki/ps2kbd.c: scancodeToChar, ps2KBDISR.
--   Mouse       foki/ps2mouse.c: ps2MouseISR; Mouse/Init: initPS2Mouse.
--   Graphics    foki/vga.c: putPixel, getPixel, drawLine.
--   Ata         foki/ata.c: ataRead; foki/fs.c: commonRead; Ata/Identify: ataIdentify, ataInit.
--   Fs          foki/fs.c: the drives, the search for a file in an ISO 9660 image, its reading.
--   Loader      foki/process.c: spawnProcess.
--   Acpi        foki/acpi.c: initACPI, getSLP_TYPa, decodePkgLength, shutdown, reboot.
--   Serial      foki/serial.c: initSerial, serialSend, serialSendString, serialSendInt.
--   Syscall     foki/idt.c: sysCall, all its calls and the switch over the number; foki/vga.c:
--               enableGraphics, enableText.
--   World       the kernel as a whole: the globals of all its files, and one step for each interrupt,
--               each system call and each write of a process, in any order.
--   Kmain       foki/kmain.c: kmain, which calls the parts above in order, and Kmain/Overlay: loadKFE,
--               callKFEFunction.
--   Wm          user/apps/wm: the windows, images and messages of the window manager; Wm/Start and
--               Wm/Session: its start and its loop.
--   Shell       user/apps/shell.c: the choice of the layout, and one round of the loop.
--   UserLib     user/lib/acky.c: the drawing functions and createWindow, on the system calls.
--   Apps        user/apps: procinfo.c, twrite.c, pstate.c and start.c.
--   Io          foki/io.c: the writes to a port.
-- A C function keeps its name in snake case (createProcessEntry is create_process_entry). The globals
-- of a file are the fields of a record, and a function that changes them takes and returns it. A part
-- of a function that has a name of its own here says above which lines it is.
--
-- Numbers are natural. A 32-bit addition and subtraction wrap around (add32, sub32), and an int that
-- may be negative is its bit pattern. A memory is a function from addresses to bytes.
--
-- Fuel. strcpy and strcmp take fuel, as a memory need not hold a NUL; more than the length of the text
-- is enough. The loop of the scheduler takes fuel: as many rounds as there are processes are enough
-- when one is ready, and no fuel is enough when all wait. The loop of `\b` over spaces takes fuel, as
-- nothing bounds it in the source; no other character enters it. The digits of a number take ten
-- rounds, which 32 bits never exceed. The loops over a path and a directory take fuel too: the length
-- of the longest name or directory on the way, plus the number of directories, is enough. All other
-- loops run as often as their counter says.
--
-- The loop of drawLine takes fuel, and one turn more than the sides of the line are long together is
-- enough. The path of a system call is read with fuel, for a memory need not hold its NUL.
--
-- The loops of ataWait and ataWaitReady take fuel: more than the number of the first answer from which on
-- the drive is ready is enough. The loop of sleep takes fuel, and more than the readings until the last
-- tick is enough. The waits of initPS2Mouse count down from 100000, as in the source. kmain hands its fuel
-- to the parts that it calls.
--
-- The process table has 256 entries. createProcessEntry writes behind it when it is full; which globals it hits
-- there is not modelled, so the theorems on new processes ask for an entry that is left. The tables of
-- the kernel lie beside the memory of the model: that a process or a drawing writes over them is left out.
--
-- Not modelled: the code of the overlay, whose functions are an argument, launcher.c, ctest.c and
-- ipctest of the user programs, and the assembly stubs. What an interrupt finds
-- on its stack is an argument, and so are the scan code, the flags, what the ports and the drives
-- answer and the addresses that the linker chooses. Interrupts that come while kmain or a system call
-- runs are left out. The console and the keyboard take their memory in a record of their own; the
-- system calls hand them the memory of the allocator, which is the one that the processes share, and
-- take it back.
pub mod Base
pub mod Ram
pub mod Alloc
pub mod Process
pub mod Pit
pub mod Gdt
pub mod Idt
pub mod Faults
pub mod Io
pub mod Console
pub mod Decimal
pub mod Keyboard
pub mod Mouse
pub mod Graphics
pub mod Serial
pub mod Ata
pub mod Fs
pub mod Loader
pub mod Acpi
pub mod Syscall
pub mod World
pub mod Kmain
pub mod Wm
pub mod Shell
pub mod UserLib
pub mod Apps
