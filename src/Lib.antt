-- ===== src/Lib.antt =====
-- LEDController: a server program sends pictures for LEDs over TCP to an output program that drives
-- them.
--
-- The output program (Output/LEDConsoleOut.c) opens a socket, and in the callback ledCommunication
-- reads commands of four letters: SIZE asks for the size of the grid, RSET gives all LEDs one colour,
-- SLED gives one LED a colour, UPDT shows the grid. It drives a device through the functions of
-- Output/LEDConsoleOut.h; Output/SimulatedLED.c is one, which draws on the console. The server's
-- side of the connection (Server/LEDServer.c) connects, asks for the size, and turns a sequence of
-- LEDs into commands (translateToOutput).
--
-- Which file models what:
--   Led            MainLib/include/LedRGB.h and Byte.h: colours, addresses, constants.
--   Wire           the conversions between numbers and the chars of a message in both programs.
--     Words        numbers of 16 bits through two chars; Commands: the command words;
--     Messages     the messages as an abstract protocol: their bytes and what they ask of the LEDs.
--   Network        what both programs call of picoTCP, as a parameter; Links: the documented
--                  behaviour of a connection that is up, as hypotheses; Handshake: that of one that
--                  is being made or closed.
--   Run            a program as a function of its state: it returns, exits, faults or still waits.
--     Keeps        rules for invariants; Waits: a rule for loops that wait.
--   Stdin          fgets, strcmp and sscanf as the programs use them.
--   Device         the functions of Output/LEDConsoleOut.h as a record, with their laws IsFrame.
--   Grid           Output/SimulatedLED.c: initLedGrid (init_led_grid), setLed (set_led),
--                  printLedGrid (print_led_grid), cleanLedGrid (clean_led_grid); Setup: setupNetwork.
--   Strip          Output/WS2812b_STM32F4Disc.c, the other device, most of which is to do.
--   Output         Output/LEDConsoleOut.c: processSocketReading (process_socket_reading) and
--                  initRGBListTo (init_rgb_list_to), over any device that fulfils IsFrame.
--     Routine      ledCommunication (led_communication), startNetworkRoutine, outputCleanUp, main.
--   Server         Server/LEDServer.c: the callback outputCommunication and processSocketReading;
--     Connect      connectToOutput, initCommunication, getOutputInformations, serverClose;
--     Ticks        ticks with one callback; Types: the C types of the statics;
--     Translate    translateToOutput;
--     Header       the functions of Server/LEDServer.h as a record, and the contract that their
--                  clients rely on; Contract: the program fulfils it.
--   Link           both programs together; Session and Program: from the console to the LEDs.
--   Json           Server/JSONToLeds.c: the tokens of jsmn and the statics of the file.
--     Text         strTokenCompare, atoi, strtok and the casts; Decimal: what they make of numbers;
--     Store        addNewSequence, appendToCurrentSequence, initLEDSequences, freeLEDSequences;
--                  Stored: the list of sequences that the statics stand for;
--     Walk         extractRGBFromString; Document: what a text says, as a relation on its tokens;
--                  Placed: strTokenCompare by the place of a text in the document;
--     File         extractRGBFromFile;
--     Header       the functions of Server/JSONToLeds.h as a record, and their protocol;
--                  Contract: the program fulfils it.
--   Input          Input/LEDInput.c: printBlinkingExample and printCyclingExample; all of Input is
--                  over the records of Server/Header and Json/Header;
--     Filling      printRandomFillingExample;
--     Console      the state behind the menus, and how a number is read from the console;
--     Files        fileMenu, which plays the sequences of a file;
--     Menus        chooseInput, exampleMenu, manualMenu, beginConsoleInput, and main of LEDTest.c;
--     FileMenu     what the file menu does under both contracts; Requests: sessions of such uses.
--   Examples       concrete runs.
--
-- Conventions. Numbers are natural numbers; where C cuts to 8, 16 or 32 bits, so do the definitions.
-- A char is its bit pattern, a number below 256; whether a plain char is signed is a parameter
-- (`signed`). Arrays are lists; the writes to the programs' static buffers go through Prelude/Arrays.
-- A write past the end of a block or of such a buffer, more bytes asked of the network or given to it
-- than the buffer has, a NULL block, an int product of 2^31 or more, a number that %hu or %d cannot
-- store, and a read of a buffer that nothing was written to are `none` or `fault`. Single chars are
-- read from the static buffers at fixed places below ten only, and these reads are not tested. What
-- is printed is kept only where it is the device's drawing.
--
-- Bounds. The loops over stdin (initLedGrid, getOutputInformations) and those that wait for the
-- network (the loops around pico_stack_tick) have fuel, for they need not end: out of fuel is
-- `waiting`, an outcome of its own. The theorems that claim a result say which fuel is enough: more
-- than the lines of the console's dialogue, or the bound on ticks without a write. All other loops
-- are recursions on the number of their rounds.
--
-- The menus have fuel for their lines in the same way. The walk over the tokens has fuel for as many
-- rounds as there are tokens, which is enough because each round reads at least one of them.
--
-- Parameters: jsmn's parser, the files and whether they can be closed, rand, and the allocator, which
-- is asked once for each call of malloc or realloc (`grants`, and `gives` for those of the menus);
-- the size of a pointer is one too.
--
-- Not modelled: picoTCP and jsmn, which are third-party code; setupNetwork is a parameter of the
-- output program. Sleeping between ticks, the texts for the user, the clearing of the screen and the
-- freeing of blocks that nothing reads again are left out.
pub mod Prelude
pub mod Led
pub mod Wire
pub mod Network
pub mod Run
pub mod Stdin
pub mod Device
pub mod Grid
pub mod Output
pub mod Strip
pub mod Server
pub mod Link
pub mod Json
pub mod Input
pub mod Examples
